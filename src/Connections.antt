-- ===== src/Connections.antt =====
-- The connections of `Database` in ar724/db.py: one for each thread, made when it is first asked
-- for. A thread and a connection are numbers; `next_id` numbers the connections as they are made.
pub mod Own
pub mod Examples
use ztrade_ares_7x.Base.{
  ◌==◌, if◌then◌else◌, delete_where, ℕ, ◌+◌, Option, none, some, List, [], ◌∷◌, ◌++◌,
}
use ztrade_ares_7x.Base.Result.{Result, err, ok}

-- the threads with their `_local.conn`, and the connections that are open
pub record Pool : Type 0 where
  pub local : List (ℕ × ℕ)
  pub opened : List ℕ
  pub next_id : ℕ

abbrev pub conn_of : (thread : ℕ) → List (ℕ × ℕ) → Option ℕ
conn_of thread [] = none
conn_of thread ((t, c) ∷ local) =
    let rest = conn_of thread local in if t == thread then some c else rest

abbrev connect : (thread : ℕ) → Option ℕ → Pool → Pool × ℕ
connect thread (some c) p = (p, c)
connect thread none p = (
  record {
    local = (thread, p.next_id) ∷ p.local;
    opened = p.opened ++ p.next_id ∷ [];
    next_id = p.next_id + 1;
  },
  p.next_id,
)

-- `connection` up to its yield
unfoldable pub connection : (thread : ℕ) → Pool → Pool × ℕ
connection thread p = connect thread (conn_of thread p.local) p

-- What the statements of a block do: it ends, or it raises.
abbrev after_block : {A : Type 0} → Result A → (rolled_back : List ℕ) → ℕ → List ℕ
after_block (ok value) rolled_back c = rolled_back
after_block (err e) rolled_back c = rolled_back ++ c ∷ []

-- A block `with self.connection()`: the connection stays, and ROLLBACK is run on it if the block
-- raised; the exception is raised again. Also the connections that were rolled back.
unfoldable pub with_connection :
    {A : Type 0} → (thread : ℕ) → (ℕ → Result A) → Pool → Pool × (Result A × List ℕ)
unfolding connection
with_connection thread block p =
    let (after, c) = connection thread p in (after, (block c, after_block (block c) [] c))

abbrev close_found : (thread : ℕ) → Option ℕ → Pool → Pool
close_found thread none p = p
close_found thread (some c) p = record p {
  local = delete_where (λ e. e.0 == thread) p.local;
  opened = delete_where (λ o. o == c) p.opened;
}

unfoldable pub close : (thread : ℕ) → Pool → Pool
close thread p = close_found thread (conn_of thread p.local) p

-- `__init__`, behind its schema
abbrev pub new_pool : Pool
new_pool = record { local = []; opened = []; next_id = 0 }
