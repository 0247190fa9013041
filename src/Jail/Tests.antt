-- ===== src/Jail/Tests.antt =====
-- Paths as texts below one root (src/ibvap/core/jail.py).
use text.Mathlib.Text.{starts_with}
use Prim.Native.String.{◌++◌ as ◌+++◌}
use ibvap.Common.{
  ◌≡◌, refl, true, false, some, List, [], ◌∷◌, String, if◌then◌else◌, string_key, string_eq?,
  contains,
}
use ibvap.Jail.{
  Files, ok, invalid_file_path, clean_file_path, is_inside, find_below, resolve_jailed_file,
  is_file_endpoint, is_path_inside_jail, safe_unlink_inside_jail,
}
use ibvap.Jail.Containment.{resolve_jailed_file-is_inside}

abbrev files : Files String
files = record {
  trim = λ t. t;
  strip = λ t. t;
  lower = λ t. t;
  path = λ t. t;
  text_of = λ p. p;
  parts = λ p. if starts_with p "../" then ".." ∷ [] else [];
  suffix = λ p. ".mp4";
  resolve = λ p. if starts_with p "/" then some p else some ("/work/" +++ p);
  is_relative_to = starts_with;
  is_absolute = λ p. starts_with p "/";
  join = λ root p. (root +++ "/") +++ p;
  exists = λ p. true;
  mentions = λ part t. false;
  is_host = λ t. false;
  has_drive = λ t. false;
}

abbrev roots : List String
roots = "/data/uploads" ∷ []

below_the_root : resolve_jailed_file files roots "file://gate.mp4" ≡ ok "/data/uploads/gate.mp4"
unfolding resolve_jailed_file clean_file_path is_inside find_below string_eq?
below_the_root = refl

outside : resolve_jailed_file files roots "/etc/passwd" ≡ invalid_file_path
unfolding resolve_jailed_file clean_file_path is_inside string_eq?
outside = refl

a_network_camera : is_file_endpoint files "rtsp://gate/live" (some "rtsp") ≡ false
unfolding is_file_endpoint string_eq?
a_network_camera = refl

unlinked : safe_unlink_inside_jail files roots "/data/uploads/a.mp4" ≡ some "/data/uploads/a.mp4"
unfolding safe_unlink_inside_jail is_path_inside_jail is_inside
unlinked = refl

resolve_jailed_file-is_inside_example :
    (is_inside files roots "/data/uploads/gate.mp4" ≡ true)
    × (contains ".." (files.parts (files.path (clean_file_path files "file://gate.mp4"))) ≡ false)
resolve_jailed_file-is_inside_example =
    resolve_jailed_file-is_inside files roots "file://gate.mp4" below_the_root
