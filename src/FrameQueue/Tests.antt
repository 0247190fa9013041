-- ===== src/FrameQueue/Tests.antt =====
-- A queue of two frames that are stale after 400 ms.
use ibvap.Common.{ℕ, ◌+◌, ◌≤◌, ◌≡◌, refl, none, some, List, [], ◌∷◌, arith, length, get_last?, All}
use ibvap.FrameQueue.Defs.{Queue, ok, index_error, init, put, get_latest, get}
use ibvap.FrameQueue.Accounting.{put-bounded}
use ibvap.FrameQueue.Freshness.{IsOrdered, IsFresh, put-IsFresh}

abbrev two : Queue ℕ
two = record {
  name = "demux->sample";
  max_size = 2;
  max_age_ms = 400;
  q = (100, 1) ∷ (300, 2) ∷ [];
  dropped = 0;
}

put_full : put two 450 3 ≡ ok (record two { q = (300, 2) ∷ (450, 3) ∷ []; dropped = 1 })
unfolding put
put_full = refl

put_no_room : put (init {A = ℕ} "q" 0 400) 5 1 ≡ index_error
unfolding put init
put_no_room = refl

latest : get_latest two 600 ≡ (record two { q = []; dropped = 1 }, some 2)
unfolding get_latest
latest = refl

latest_stale : get_latest two 701 ≡ (record two { q = []; dropped = 2 }, none)
unfolding get_latest
latest_stale = refl

oldest : get two ≡ (record two { q = (300, 2) ∷ [] }, some 1)
unfolding get
oldest = refl

put-bounded_example :
    (s' : Queue ℕ) × (put two 450 3 ≡ ok s')
    × (length s'.q ≤ 2)
    × (get_last? s'.q ≡ some (450, 3))
    × (length s'.q + s'.dropped ≡ 3)
put-bounded_example = put-bounded two 450 3 (omega arith) (omega arith)

abbrev after : List (ℕ × ℕ)
after = (300, 2) ∷ (450, 3) ∷ []

put-IsFresh_example : IsOrdered 0 after 450 × All (IsFresh 450 400) after
put-IsFresh_example = put-IsFresh two 0 400 450 3 (omega arith) (omega arith) put_full
