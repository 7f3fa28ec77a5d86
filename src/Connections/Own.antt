-- ===== src/Connections/Own.antt =====
-- The connections of ar724/db.py under any sequence of calls.
use ztrade_ares_7x.Base.{
  ◌==◌, if◌then◌else◌, Bool-cases, Option-cases, In, In-append_left, In-append_right, delete_where,
  ℕ, ◌+◌, ◌<◌, ◌≡◌, refl, sym, ◌∙◌, ap, ◌≢◌, inl, inr, false, none, some, List, [], ◌∷◌, ◌++◌,
  arith,
}
use ztrade_ares_7x.Connections.{conn_of, connection, close, new_pool, Pool, close_found}

-- A thread asks for its connection, or closes it.
pub data Call : Type 0 where
  connects closes : (thread : ℕ) → Call

abbrev pub make_call : Call → Pool → Pool
make_call (connects thread) p = (connection thread p).0
make_call (closes thread) p = close thread p

abbrev pub make_calls : List Call → Pool → Pool
make_calls [] p = p
make_calls (c ∷ cs) p = make_calls cs (make_call c p)

-- Each connection belongs to one thread, is open, and was numbered.
pub record IsApart (p : Pool) : Type 0 where
  pub own : (t u c : ℕ) → conn_of t p.local ≡ some c → conn_of u p.local ≡ some c → t ≡ u
  pub open_ones : (t c : ℕ) → conn_of t p.local ≡ some c → In c p.opened
  pub numbered : (t c : ℕ) → conn_of t p.local ≡ some c → c < p.next_id

conn_of-delete :
    (t u : ℕ) (local : List (ℕ × ℕ))
    → conn_of t (delete_where (λ e. e.0 == u) local) ≡ (if t == u then none else conn_of t local)
conn_of-delete t u [] = ground arith
conn_of-delete t u ((k, c) ∷ local) = ground (arith, conn_of-delete t u local)

In-delete : (c d : ℕ) (xs : List ℕ) → In c xs → c ≢ d → In c (delete_where (λ o. o == d) xs)
In-delete c d [] m ne = m
In-delete c d (x ∷ xs) (inl e) ne = let other : (x == d) ≡ false = ground arith in rw other (inl e)
In-delete c d (x ∷ xs) (inr m) ne = elim (Bool-cases (x == d)) [
  | inl e ↦ rw e (In-delete c d xs m ne)
  | inr e ↦ rw e (inr (In-delete c d xs m ne))
]

module _ (p : Pool) (h : IsApart p) (thread : ℕ) where
  connect-own :
      (t u c : ℕ)
      → conn_of t ((thread, p.next_id) ∷ p.local) ≡ some c
      → conn_of u ((thread, p.next_id) ∷ p.local) ≡ some c
      → t ≡ u
  connect-own t u c a b = ground (arith, h.own t u c, h.numbered t c, h.numbered u c)

  connect-numbered :
      (t c : ℕ) → conn_of t ((thread, p.next_id) ∷ p.local) ≡ some c → c < p.next_id + 1
  connect-numbered t c a = ground (arith, h.numbered t c)

  connect-open :
      (t c : ℕ)
      → conn_of t ((thread, p.next_id) ∷ p.local) ≡ some c
      → In c (p.opened ++ p.next_id ∷ [])
  connect-open t c a = elim (Bool-cases (thread == t)) [
    | inl e ↦
        let same : c ≡ p.next_id = ground arith in
        In-append_right c p.opened (p.next_id ∷ []) (inl same)
    | inr e ↦ In-append_left c p.opened (p.next_id ∷ []) (h.open_ones t c (rw e at a))
  ]

  connection-IsApart : IsApart (connection thread p).0
  unfolding connection
  connection-IsApart = elim (Option-cases (conn_of thread p.local)) [
    | inr (c, e) ↦ rw e h
    | inl e ↦
        rw e (record { own = connect-own; open_ones = connect-open; numbered = connect-numbered })
  ]

  closed-IsApart :
      (c : ℕ) → conn_of thread p.local ≡ some c → IsApart (close_found thread (some c) p)
  closed-IsApart c e = record {
    own = λ t u d a b. h.own t u d (kept t d a).1 (kept u d b).1;
    open_ones = λ t d a.
        let (other, was) = kept t d a in
        In-delete d c p.opened (h.open_ones t d was)
          (λ same. other (h.own t thread d was (e ∙ ap some (sym same))));
    numbered = λ t d a. h.numbered t d (kept t d a).1;
  }
    where
      kept :
          (t d : ℕ)
          → conn_of t (delete_where (λ x. x.0 == thread) p.local) ≡ some d
          → (t ≢ thread) × (conn_of t p.local ≡ some d)
      kept t d a = elim (Bool-cases (t == thread)) [
        | inl q ↦ absurd (cc (a, conn_of-delete t thread p.local, q))
        | inr q ↦ (λ same. ground arith, sym (rw q at (conn_of-delete t thread p.local)) ∙ a)
      ]

  close-IsApart : IsApart (close thread p)
  unfolding close
  close-IsApart = elim (Option-cases (conn_of thread p.local)) [
    | inl e ↦ rw e h
    | inr (c, e) ↦ rw e (closed-IsApart c e)
  ]

make_call-IsApart : (c : Call) (p : Pool) → IsApart p → IsApart (make_call c p)
make_call-IsApart (connects thread) p h = connection-IsApart p h thread
make_call-IsApart (closes thread) p h = close-IsApart p h thread

make_calls-IsApart : (cs : List Call) (p : Pool) → IsApart p → IsApart (make_calls cs p)
make_calls-IsApart [] p h = h
make_calls-IsApart (c ∷ cs) p h = make_calls-IsApart cs (make_call c p) (make_call-IsApart c p h)

-- However threads ask for their connections and close them, no connection is that of two threads,
-- each thread's is open, and a thread that asks again is given the one it has.
pub new_pool-IsApart :
    (cs : List Call)
    → IsApart (make_calls cs new_pool)
      × ((thread : ℕ)
          → connection thread (connection thread (make_calls cs new_pool)).0
            ≡ connection thread (make_calls cs new_pool))
unfolding connection
new_pool-IsApart cs = (
  make_calls-IsApart cs new_pool
      (record { own = λ t u c a b. cc a; open_ones = λ t c a. cc a; numbered = λ t c a. cc a }),
  λ thread. again thread (make_calls cs new_pool),
)
  where
    again :
        (thread : ℕ) (p : Pool) → connection thread (connection thread p).0 ≡ connection thread p
    again thread p = elim (Option-cases (conn_of thread p.local)) [
      | inl e ↦ ground arith
      | inr (c, e) ↦ rw e (rw e refl)
    ]
