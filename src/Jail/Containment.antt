-- ===== src/Jail/Containment.antt =====
-- What the sandbox lets through (src/ibvap/core/jail.py).
use ibvap.Common.{
  ◌≡◌, true, false, some, List, [], ◌∷◌, String, contains, string_key, arith, Option-cases, inl,
  inr,
}
use ibvap.Jail.{
  Files, ok, clean_file_path, is_inside, find_below, resolve_jailed_file, is_path_inside_jail,
  safe_unlink_inside_jail,
}

module _ {P : Type 0} (files : Files P) where
  find_below-is_inside :
      (roots : List P) (candidate : P) {p : P}
      → find_below files roots candidate ≡ ok p
      → (is_inside files roots p ≡ true) × (files.exists p ≡ true)
  unfolding find_below is_inside
  find_below-is_inside [] candidate h = cc
  find_below-is_inside (root ∷ roots) candidate {p} h =
      ground (arith, find_below-is_inside roots candidate {p = p})

  -- A path that the sandbox hands out lies below one of its roots, and the text that it came from has no
  -- part that leads upwards.
  pub resolve_jailed_file-is_inside :
      (roots : List P) (raw_path : String) {p : P}
      → resolve_jailed_file files roots raw_path ≡ ok p
      → (is_inside files roots p ≡ true)
        × (contains ".." (files.parts (files.path (clean_file_path files raw_path))) ≡ false)
  unfolding resolve_jailed_file
  resolve_jailed_file-is_inside roots raw_path {p} h =
      ground
        (arith, find_below-is_inside roots (files.path (clean_file_path files raw_path)) {p = p})

  -- Only a path that resolves to a place below a writable root is unlinked.
  pub safe_unlink_inside_jail-is_inside :
      (writable : List P) (path_str : String) {p : P}
      → safe_unlink_inside_jail files writable path_str ≡ some p
      → (p ≡ files.path path_str)
        × ((resolved : P) × (files.resolve p ≡ some resolved)
            × (is_inside files writable resolved ≡ true))
  unfolding safe_unlink_inside_jail is_path_inside_jail
  safe_unlink_inside_jail-is_inside writable path_str {p} h =
      elim (Option-cases (files.resolve (files.path path_str))) [
        | inl fails ↦ absurd (ground arith)
        | inr (resolved, found) ↦ (ground arith, (resolved, ground arith, ground arith))
      ]
