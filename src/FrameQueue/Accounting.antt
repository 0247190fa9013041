-- ===== src/FrameQueue/Accounting.antt =====
-- The bound of the queue, and the account of the frames that it dropped.
use ibvap.Common.{
  ℕ, suc, ◌+◌, ◌≤◌, ◌<◌, ◌≡◌, refl, some, List, [], ◌∷◌, ◌++◌, arith, length, length-append,
  get_last?, get_last?-append, dec_le,
}
use ibvap.FrameQueue.Defs.{Queue, ok, drop_stale, make_room, put}

module _ {A : Type 0} where
  pub drop_stale-length :
      (now age : ℕ) (l : List (ℕ × A))
      → length (drop_stale now age l).0 + (drop_stale now age l).1 ≡ length l
  unfolding drop_stale
  drop_stale-length now age [] = refl
  drop_stale-length now age ((ts, a) ∷ rest) = ground (arith, drop_stale-length now age rest)

  -- With room for a frame at all, room is made: what stays fits beside one more.
  pub make_room_lem :
      (max_size : ℕ) (l : List (ℕ × A)) (dropped : ℕ)
      → 0 < max_size
      → length l ≤ max_size
      → (kept : List (ℕ × A)) × (dropped' : ℕ) × (make_room max_size l dropped
          ≡ ok (kept, dropped'))
        × (length kept < max_size)
        × (length kept + dropped' ≡ length l + dropped)
  unfolding make_room
  make_room_lem max_size [] dropped p h = ([], dropped, ground arith, p, refl)
  make_room_lem max_size (x ∷ rest) dropped p h = elim (dec_le max_size (suc (length rest))) [
    | yes full ↦ (rest, dropped + 1, ground arith, omega arith, omega arith)
    | no room ↦ (x ∷ rest, dropped, ground arith, omega arith, omega arith)
  ]

  -- On a queue that is within its bound, and can hold a frame, `put` returns; the queue stays within
  -- the bound, its newest entry is the new item, and each frame that was there, or came, is either
  -- held or counted as dropped.
  pub put-bounded :
      (s : Queue A) (now : ℕ) (item : A)
      → 0 < s.max_size
      → length s.q ≤ s.max_size
      → (s' : Queue A) × (put s now item ≡ ok s')
        × (length s'.q ≤ s.max_size)
        × (get_last? s'.q ≡ some (now, item))
        × (length s'.q + s'.dropped ≡ length s.q + s.dropped + 1)
  unfolding put
  put-bounded s now item p h =
      let fresh = drop_stale now s.max_age_ms s.q in
      let (kept, dropped, made, fits, account) =
        make_room_lem s.max_size fresh.0 (s.dropped + fresh.1) p
          (omega (arith, drop_stale-length now s.max_age_ms s.q)) in
      (
        record s { q = kept ++ (now, item) ∷ []; dropped = dropped },
        rw made,
        omega (arith, length-append kept ((now, item) ∷ [])),
        get_last?-append kept (now, item),
        omega
            (arith, length-append kept ((now, item) ∷ []), drop_stale-length now s.max_age_ms s.q),
      )
