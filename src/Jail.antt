-- ===== src/Jail.antt =====
-- The sandbox of local footage (src/ibvap/core/jail.py). Paths and the file system are pathlib's, and the
-- regular expressions re's: the fields of `Files`, where none stands for an exception.
use text.Mathlib.Text.{starts_with}
use ibvap.Common.{
  ℕ, ◌≡◌, refl, Bool, true, false, not, ◌&&◌, ◌||◌, Option, none, some, List, [], ◌∷◌, String,
  if◌then◌else◌, contains, same, string_key,
}
use ibvap.Common.Texts.{drop_chars}
mod Containment
mod Tests

-- `trim` is `strip().strip('"').strip("'").strip()`, and `join` the operator `/`.
pub record Files (P : Type 0) : Type 0 where
  pub trim : String → String
  pub strip : String → String
  pub lower : String → String
  pub path : String → P
  pub text_of : P → String
  pub parts : P → List String
  pub suffix : P → String
  pub resolve : P → Option P
  pub is_relative_to : P → P → Bool
  pub is_absolute : P → Bool
  pub join : P → P → P
  pub exists : P → Bool
  pub mentions : String → String → Bool
  pub is_host : String → Bool
  pub has_drive : String → Bool

-- A path, the HTTPException `invalid_file_path`, or another exception.
pub data Result (A : Type 0) : Type 0 where
  ok : A → Result A
  invalid_file_path : Result A
  raised : Result A

-- The scheme of a file URL, of which so many characters are cut off.
unfoldable pub scheme_length : String → ℕ
scheme_length lower =
    if starts_with lower "file://localhost/"
    then 17
    else if starts_with lower "file:///"
    then 8
    else if starts_with lower "file://"
    then 7
    else if starts_with lower "file:\\\\\\"
    then 8
    else if starts_with lower "file:\\\\"
    then 7
    else if starts_with lower "file:"
    then 5
    else 0

module _ {P : Type 0} (files : Files P) where
  unfoldable pub clean_file_path : String → String
  unfolding scheme_length
  clean_file_path raw_path =
      let stripped = files.trim raw_path in
      files.trim (drop_chars (scheme_length (files.lower stripped)) stripped)

  unfoldable pub is_inside : List P → P → Bool
  is_inside [] p = false
  is_inside (root ∷ roots) p = files.is_relative_to p root || is_inside roots p

  -- The first root below which the relative path leads to a file.
  unfoldable pub find_below : List P → P → Result P
  find_below [] candidate = invalid_file_path
  find_below (root ∷ roots) candidate = elim (files.resolve (files.join root candidate)) [
    | none ↦ raised
    | some sub ↦
        let rest = find_below roots candidate in
        if files.is_relative_to sub root && files.exists sub then ok sub else rest
  ]

  -- `_resolve_jailed_file`, where `roots` are `_file_jail_roots()`.
  unfoldable pub resolve_jailed_file : List P → String → Result P
  resolve_jailed_file roots raw_path =
      let candidate = files.path (clean_file_path raw_path) in
      if contains ".." (files.parts candidate)
      then invalid_file_path
      else elim (files.resolve candidate) [
        | none ↦ invalid_file_path
        | some resolved ↦
            if is_inside roots resolved
            then ok resolved
            else if files.is_absolute candidate
            then invalid_file_path
            else find_below roots candidate
      ]

  abbrev pub is_file_scheme : String → Bool
  is_file_scheme lower =
      starts_with lower "file://" || starts_with lower "file:\\\\" || starts_with lower "file:"

  unfoldable pub is_file_endpoint : String → Option String → Bool
  is_file_endpoint endpoint protocol =
      let clean = clean_file_path endpoint in
      let lower_raw = files.lower (files.strip endpoint) in
      if is_protocol "file" protocol || is_file_scheme lower_raw
      then true
      else if is_network protocol
      then false
      else if files.mentions "://" clean
          && not (starts_with lower_raw "file://" || starts_with lower_raw "file:\\\\")
      then false
      else if files.is_host clean
      then false
      else if files.has_drive clean || starts_with clean "/" || starts_with clean "\\"
      then true
      else contains (files.lower (files.suffix (files.path clean)))
          (".mp4" ∷ ".avi" ∷ ".mkv" ∷ ".mov" ∷ ".webm" ∷ [])
    where
      is_protocol : String → Option String → Bool
      is_protocol name none = false
      is_protocol name (some p) = same p name

      is_network : Option String → Bool
      is_network none = false
      is_network (some p) =
          contains p ("rtsp" ∷ "rtsps" ∷ "http" ∷ "https" ∷ "mjpeg" ∷ "hls" ∷ "whip" ∷ [])

  -- The jailed file's path, or the endpoint as it is.
  unfoldable pub import_external_video : List P → String → Result String
  import_external_video roots endpoint =
      let clean = clean_file_path endpoint in
      if contains ".." (files.parts (files.path clean))
      then ok endpoint
      else elim (resolve_jailed_file roots clean) [
        | ok jailed ↦ ok (files.text_of jailed)
        | invalid_file_path ↦ ok endpoint
        | raised ↦ raised
      ]

  unfoldable pub is_path_inside_jail : List P → String → Bool
  is_path_inside_jail writable path_str = elim (files.resolve (files.path path_str)) [
    | none ↦ false
    | some resolved ↦ is_inside writable resolved
  ]

  -- What is unlinked, if anything.
  unfoldable pub safe_unlink_inside_jail : List P → String → Option P
  safe_unlink_inside_jail writable path_str =
      if is_path_inside_jail writable path_str then some (files.path path_str) else none
