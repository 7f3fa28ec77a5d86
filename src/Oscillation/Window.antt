-- ===== src/Oscillation/Window.antt =====
-- The bounded deques of ar724/oscillation.py hold what was observed last.
use ztrade_ares_7x.Base.{
  length, drop, length-append, length-drop, drop-drop, drop-append, ℕ, ◌+◌, ◌-◌, String, ◌≡◌, refl,
  sym, ◌∙◌, ap, List, [], ◌∷◌, ◌++◌, map, arith,
}
use mathlib.Core.Path.{ap₂}
use mathlib.Core.List.{append-nil, append_assoc}
use ztrade_ares_7x.Budget.{append_bounded}
use ztrade_ares_7x.Oscillation.{
  recent, structural_hash, observe, Param, Detector, observe_params, observe_param,
}

pub append_bounded-recent :
    (window : ℕ) (xs : List String) (x : String)
    → append_bounded window (recent window xs) x ≡ recent window (xs ++ x ∷ [])
append_bounded-recent window xs x =
    let k = length xs - window in
    let j = length (drop k xs) + 1 - window in
    let counts : k + j ≡ length (xs ++ x ∷ []) - window =
      omega (arith, length-drop k xs, length-append xs (x ∷ [])) in
    ap (drop j) (sym (drop-append k xs (x ∷ []) (omega arith)))
    ∙ drop-drop j k (xs ++ x ∷ [])
    ∙ ap (λ n. drop n (xs ++ x ∷ [])) counts

module _ (digest : List (String × String) → String) where
  abbrev pub observe_all : Detector → List (List Param) → Detector
  observe_all d [] = d
  observe_all d (c ∷ cs) = observe_all (observe digest d c).0 cs

  observe_params-keeps :
      (d : Detector) (ps : List Param)
      → ((observe_params d ps).0.history ≡ d.history) × ((observe_params d ps).0.window ≡ d.window)
  unfolding observe_params
  observe_params-keeps d [] = (refl, refl)
  observe_params-keeps d (p ∷ ps) = observe_params-keeps (observe_param d p).0 ps

  -- After any candidates the history is that of the last ones: the hashes of all candidates behind
  -- those that were there at first, cut to the window.
  pub observe_all-history :
      (d : Detector) (seen : List String) (cs : List (List Param))
      → d.history ≡ recent d.window seen
      → (observe_all d cs).history ≡ recent d.window (seen ++ map (structural_hash digest) cs)
  unfolding observe
  observe_all-history d seen [] h = h ∙ ap (recent d.window) (sym (append-nil seen))
  observe_all-history d seen (c ∷ cs) h =
      let hash = structural_hash digest c in
      let before = record d { history = append_bounded d.window d.history hash } in
      let (kept, width) = observe_params-keeps before c in
      let now : (observe digest d c).0.history ≡ recent d.window (seen ++ hash ∷ []) =
        kept
        ∙ ap (λ hs. append_bounded d.window hs hash) h
        ∙ append_bounded-recent d.window seen hash in
      observe_all-history (observe digest d c).0 (seen ++ hash ∷ []) cs
        (now ∙ ap (λ w. recent w (seen ++ hash ∷ [])) (sym width))
      ∙ ap₂ recent width (append_assoc seen (hash ∷ []) (map (structural_hash digest) cs))
