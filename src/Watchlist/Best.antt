-- ===== src/Watchlist/Best.antt =====
-- The best match of a face (core/watchlist.py).
use ibvap.Common.{
  suc, ◌≡◌, ◌⊎◌, refl, sym, ap, ◌∙◌, subst, true, false, Option, none, some, List, [], ◌∷◌,
  if◌then◌else◌, All, arith, Bool-cases, Option-cases, inl, inr,
}
use ibvap.Common.Float.{Float, less, at_most}
use ibvap.Watchlist.Defs.{WatchlistEntry}
use ibvap.Watchlist.Matching.{MatchResult, result_of, gallery_score, best_match, identify}
use ibvap.Watchlist.Verdicts.{In}

module _ {F V : Type 0} ⦃f : Float F⦄ (sim : V → F) where
  -- No gallery of the list scores higher.
  abbrev pub IsTop : F → List (WatchlistEntry F V) → Type 0
  IsTop best es = All (λ e. (x : F) → gallery_score sim e.gallery ≡ some x → less best x ≡ false) es

module _ {F V : Type 0} ⦃f : Float F⦄ (asym : (a b : F) → less a b ≡ true → less b a ≡ false)
    (neg_trans : (a b c : F) → less a b ≡ false → less b c ≡ false → less a c ≡ false)
    (irrefl : (a : F) → less a a ≡ false) (sim : V → F) where
  best_match-IsTop :
      (best : F) (chosen : Option (WatchlistEntry F V)) (es : List (WatchlistEntry F V))
      → (less (best_match sim best chosen es).0 best ≡ false)
        × IsTop sim (best_match sim best chosen es).0 es
  unfolding best_match
  best_match-IsTop best chosen [] = (irrefl best, tt)
  best_match-IsTop best chosen (e ∷ es) = elim (Option-cases (gallery_score sim e.gallery)) [
    | inl empty ↦
        let next : best_match sim best chosen (e ∷ es) ≡ best_match sim best chosen es =
          rw (empty, best_match) in
        let (a, b) = best_match-IsTop best chosen es in
        subst (λ r. (less r.0 best ≡ false) × IsTop sim r.0 (e ∷ es)) (sym next)
          (a, ((λ x h. absurd (cc)), b))
    | inr (score, scored) ↦ elim (Bool-cases (less best score)) [
      | inl better ↦
          let next : best_match sim best chosen (e ∷ es) ≡ best_match sim score (some e) es =
            rw (scored, better, best_match) in
          let (a, b) = best_match-IsTop score (some e) es in
          subst (λ r. (less r.0 best ≡ false) × IsTop sim r.0 (e ∷ es)) (sym next)
            (neg_trans _ score best a (asym best score better), (top-here e score scored _ a, b))
      | inr worse ↦
          let next : best_match sim best chosen (e ∷ es) ≡ best_match sim best chosen es =
            rw (scored, worse, best_match) in
          let (a, b) = best_match-IsTop best chosen es in
          subst (λ r. (less r.0 best ≡ false) × IsTop sim r.0 (e ∷ es)) (sym next)
            (a, (top-here e score scored _ (neg_trans _ best score a worse), b))
    ]
  ]
    where
      top-here :
          (e : WatchlistEntry F V) (score : F)
          → gallery_score sim e.gallery ≡ some score
          → (t : F) → less t score ≡ false
          → (x : F) → gallery_score sim e.gallery ≡ some x
          → less t x ≡ false
      top-here e score scored t h x other = let it : score ≡ x = cc in rw (← it) h

  -- The chosen entry is one that was chosen before, or an entry of the list with that score.
  abbrev IsChosen :
      Option (WatchlistEntry F V)
      → F
      → List (WatchlistEntry F V)
      → F × Option (WatchlistEntry F V)
      → Type 0
  IsChosen chosen best es (score, result) =
      (e : WatchlistEntry F V)
      → result ≡ some e
      → ((chosen ≡ some e) × (score ≡ best))
        ⊎ (In e es × (gallery_score sim e.gallery ≡ some score))

  best_match-IsChosen :
      (best : F) (chosen : Option (WatchlistEntry F V)) (es : List (WatchlistEntry F V))
      → IsChosen chosen best es (best_match sim best chosen es)
  unfolding best_match
  best_match-IsChosen best chosen [] = λ e h. inl (h, refl)
  best_match-IsChosen best chosen (x ∷ es) = elim (Option-cases (gallery_score sim x.gallery)) [
    | inl empty ↦
        let next : best_match sim best chosen (x ∷ es) ≡ best_match sim best chosen es =
          rw (empty, best_match) in
        subst (IsChosen chosen best (x ∷ es)) (sym next)
          (λ e h. weaken (best_match-IsChosen best chosen es e h))
    | inr (score, scored) ↦ elim (Bool-cases (less best score)) [
      | inl better ↦
          let next : best_match sim best chosen (x ∷ es) ≡ best_match sim score (some x) es =
            rw (scored, better, best_match) in
          subst (IsChosen chosen best (x ∷ es)) (sym next) (λ e h.
            inr (elim (best_match-IsChosen score (some x) es e h) [
              | inl (it, same_score) ↦
                  let here : x ≡ e = cc in
                  (
                    (0, it),
                    ap (λ (w : WatchlistEntry F V). gallery_score sim w.gallery) (sym here)
                        ∙ scored
                        ∙ ap some (sym same_score),
                  )
              | inr ((i, found), scores) ↦ ((suc i, found), scores)
            ]))
      | inr worse ↦
          let next : best_match sim best chosen (x ∷ es) ≡ best_match sim best chosen es =
            rw (scored, worse, best_match) in
          subst (IsChosen chosen best (x ∷ es)) (sym next)
            (λ e h. weaken (best_match-IsChosen best chosen es e h))
    ]
  ]
    where
      weaken :
          {A : Type 0} {e : WatchlistEntry F V} {s : F}
          → A ⊎ (In e es × (gallery_score sim e.gallery ≡ some s))
          → A ⊎ (In e (x ∷ es) × (gallery_score sim e.gallery ≡ some s))
      weaken (inl a) = inl a
      weaken (inr ((i, found), scores)) = inr ((suc i, found), scores)

  -- Where scores are comparable, a face that is identified names an entry of the list with the score of its
  -- gallery, which no other gallery exceeds and which reaches the amber threshold; the tier is RED exactly
  -- if it reaches the red one.
  pub identify-best :
      (minus_one red amber : F) (entries : List (WatchlistEntry F V)) {m : MatchResult F}
      → identify sim minus_one red amber entries ≡ some m
      → IsTop sim m.score entries
        × (less m.score amber ≡ false)
        × (m.tier ≡ (if at_most red m.score then "RED" else "AMBER"))
        × ((e : WatchlistEntry F V) × (m.entry_id ≡ e.id)
            × In e entries
            × (gallery_score sim e.gallery ≡ some m.score))
  unfolding identify
  identify-best minus_one red amber entries {m} h =
      let r = best_match sim minus_one none entries in
      let top = (best_match-IsTop minus_one none entries).1 in
      elim (Option-cases r.1) [
        | inl unmatched ↦ absurd (ground arith)
        | inr (e, chosen) ↦ elim (Bool-cases (less r.0 amber)) [
          | inl low ↦ absurd (ground arith)
          | inr enough ↦
              let it : result_of r.0 (if at_most red r.0 then "RED" else "AMBER") e ≡ m =
                ground arith in
              let found : In e entries × (gallery_score sim e.gallery ≡ some r.0) =
                elim (best_match-IsChosen minus_one none entries e chosen) [
                  | inl (nothing, score) ↦ absurd (cc)
                  | inr there ↦ there
                ] in
              subst
                (λ (x : MatchResult F).
                  IsTop sim x.score entries
                  × (less x.score amber ≡ false)
                  × (x.tier ≡ (if at_most red x.score then "RED" else "AMBER"))
                  × ((w : WatchlistEntry F V) × (x.entry_id ≡ w.id)
                      × In w entries
                      × (gallery_score sim w.gallery ≡ some x.score)))
                it (top, enough, refl, (e, refl, found.0, found.1))
        ]
      ]
