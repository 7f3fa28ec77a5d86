-- ===== src/Dag/Search.antt =====
-- What the depth-first search of ar724/dag.py, `validate_dag`, keeps.
use mathlib.Core.WellFounded.{Acc}
use ztrade_ares_7x.Base.{
  Bool-cases, In, In-append_left, In-append_right, among, among→In, ℕ, zero, suc, ◌≤◌, ◌<◌, String,
  ◌≡◌, refl, sym, ◌∙◌, ap, subst, inl, inr, List, [], ◌∷◌, ◌++◌, arith, str_eq, eq_iff,
}
use ztrade_ares_7x.Dag.{
  ◌>>=◌, is_white, Colors, paint, from, visit_all, dfs, Checked, raised, returned, white, gray,
  black,
}
use ztrade_ares_7x.Dag.Graph.{Depends, IsChain, IsCycle, IsChain-snoc, from-IsChain}
use ztrade_ares_7x.Dag.Colors.{
  Color-cases, count-lt, whites, Sound, After-refl, After-whites, Good, Good-bind, Good-from,
}

module _ (all_ids : List String) (g : String → List String) where
  -- What holds when `node` is visited, or at its neighbors, with `path` up to it.
  pub record Ready (fuel : ℕ) (node : String) (path : List String) (color : Colors) : Type 0 where
    pub sound : Sound all_ids g color
    pub listed : In node all_ids
    pub chain : IsChain g (path ++ node ∷ [])
    pub enough : whites all_ids g color ≤ fuel

  abbrev pub Visits : ℕ → (String → List String → Colors → Checked Colors) → Type 0
  Visits fuel visit =
      (n : String) (path : List String) (color : Colors)
      → Ready fuel n path color
      → color n ≡ white
      → ((x : String) → color x ≡ gray → In x path)
      → Good all_ids g color (λ c. c n ≡ black) (visit n path color)

  abbrev pub AllBlack : List String → Colors → Type 0
  AllBlack ns c = (n : String) → In n ns → (c n ≡ black) × In n all_ids

  closes :
      (path : List String) (node n : String)
      → IsChain g (path ++ node ∷ [])
      → In n (path ++ node ∷ [])
      → In n (g node)
      → IsCycle g (from n (path ++ node ∷ []) ++ n ∷ [])
  closes path node n chain m edge =
      let (q, r, f, s, c) = from-IsChain g n path node m chain in
      (
        n,
        r,
        ap (λ p. p ++ n ∷ []) (f ∙ s),
        subst (λ p. IsChain g (p ++ n ∷ [])) (sym f) (IsChain-snoc g q node n c edge),
      )

  AllBlack-cons :
      (n : String) (ns : List String) (c : Colors)
      → In n all_ids
      → c n ≡ black
      → AllBlack ns c
      → AllBlack (n ∷ ns) c
  AllBlack-cons n ns c listed b h x (inl e) =
      (subst (λ z. c z ≡ black) (sym e) b, subst (λ z. In z all_ids) (sym e) listed)
  AllBlack-cons n ns c listed b h x (inr m) = h x m

  pub visit_all-Good :
      (fuel : ℕ) (visit : String → List String → Colors → Checked Colors)
      → Visits fuel visit
      → (node : String) (path : List String) (color : Colors) (ns : List String)
      → Ready fuel node path color
      → ((x : String) → color x ≡ gray → In x (path ++ node ∷ []))
      → ((n : String) → In n ns → In n (g node))
      → Good all_ids g color
          (AllBlack ns)
          (visit_all all_ids visit node (path ++ node ∷ []) color ns)
  unfolding visit_all
  visit_all-Good fuel visit hv node path color [] ready grays edges =
      (After-refl all_ids g color ready.sound, λ n m. absurd m)
  visit_all-Good fuel visit hv node path color (n ∷ ns) ready grays edges =
      let edge = edges n (inl refl) in
      elim (Bool-cases (among all_ids n)) [
        | inr e ↦ rw (e, visit_all) (ready.listed, edge, e)
        | inl e ↦ elim (Color-cases (color n)) [
          | inr (inl c) ↦ rw (e, c, visit_all) (closes path node n ready.chain (grays n c) edge)
          | inl c ↦
              rw (e, c, visit_all)
                (Good-bind all_ids g (λ c'. c' n ≡ black) (AllBlack (n ∷ ns)) color
                  (visit n (path ++ node ∷ []) color) _
                  (hv n (path ++ node ∷ []) color
                    (record {
                      sound = ready.sound;
                      listed = among→In all_ids n e;
                      chain = IsChain-snoc g path node n ready.chain edge;
                      enough = ready.enough;
                    })
                    c grays)
                  (λ c' aft now.
                    Good-from all_ids g (AllBlack ns) (AllBlack (n ∷ ns)) color c' _ aft
                      (visit_all-Good fuel visit hv node path c' ns
                        (record {
                          sound = aft.sound;
                          listed = ready.listed;
                          chain = ready.chain;
                          enough = omega (arith, After-whites all_ids g color c' aft, ready.enough);
                        })
                        (λ x q. grays x (aft.grays x q)) (λ x m. edges x (inr m)))
                      (λ c'' aft' h.
                        AllBlack-cons n ns c'' (among→In all_ids n e) (aft'.blacks n now) h)))
          | inr (inr c) ↦
              rw (e, c, visit_all)
                (Good-from all_ids g (AllBlack ns) (AllBlack (n ∷ ns)) color color _
                  (After-refl all_ids g color ready.sound)
                  (visit_all-Good fuel visit hv node path color ns ready grays
                    (λ x m. edges x (inr m)))
                  (λ c' aft h. AllBlack-cons n ns c' (among→In all_ids n e) (aft.blacks n c) h))
        ]
      ]

  paint-whites :
      (color : Colors) (node : String)
      → In node all_ids
      → color node ≡ white
      → whites all_ids g (paint color node gray) < whites all_ids g color
  paint-whites color node m w =
      count-lt (λ x. is_white (paint color node gray x)) (λ x. is_white (color x)) node all_ids
        (λ x e. ground (arith, eq_iff node x)) m (ground (arith, eq_iff node node)) (ap is_white w)

  Sound-gray :
      (color : Colors) (node : String)
      → Sound all_ids g color
      → Sound all_ids g (paint color node gray)
  Sound-gray color node s x e = s x (ground (arith, eq_iff node x))

  finish :
      (color : Colors) (node : String) (m : Checked Colors)
      → color node ≡ white
      → Good all_ids g (paint color node gray) (AllBlack (g node)) m
      → Good all_ids g color (λ c. c node ≡ black) (m >>= λ c. returned (paint c node black))
  finish color node (raised fault) w h = h
  finish color node (returned c) w (aft, all_black) = (
    record {
      sound = λ x e. elim (Bool-cases (str_eq node x)) [
        | inl same ↦
            subst (λ z. Acc (Depends g) z × ((y : String) → In y (g z) → In y all_ids))
              ((eq_iff node x).0 same)
              (Acc.intro node (λ y m. (aft.sound y (all_black y m).0).0), λ y m. (all_black y m).1)
        | inr other ↦ aft.sound x (rw other at e)
      ];
      blacks = λ x e. ground (arith, aft.blacks x, eq_iff node x);
      grays = λ x e. ground (arith, aft.grays x, eq_iff node x);
      whites_kept = λ x e. ground (arith, aft.whites_kept x, eq_iff node x);
    },
    ground (arith, eq_iff node node),
  )

  -- A visit of a white task, with fuel for each white one, gives colors that are right, with the
  -- task black, or a fault that is true.
  pub dfs-Good : (fuel : ℕ) → Visits fuel (dfs all_ids g fuel)
  unfolding dfs
  dfs-Good zero node path color ready w grays =
      absurd (omega (arith, paint-whites color node ready.listed w, ready.enough))
  dfs-Good (suc fuel) node path color ready w grays = finish color node _ w (
      visit_all-Good fuel (dfs all_ids g fuel) (dfs-Good fuel) node path (paint color node gray)
        (g node)
        (record {
          sound = Sound-gray color node ready.sound;
          listed = ready.listed;
          chain = ready.chain;
          enough = omega (arith, paint-whites color node ready.listed w, ready.enough);
        })
        (λ x e. on_path x e) (λ n m. m))
    where
      on_path : (x : String) → paint color node gray x ≡ gray → In x (path ++ node ∷ [])
      on_path x e = elim (Bool-cases (str_eq node x)) [
        | inl same ↦ In-append_right x path (node ∷ []) (inl (sym ((eq_iff node x).0 same)))
        | inr other ↦ In-append_left x path (node ∷ []) (grays x (rw other at e))
      ]
