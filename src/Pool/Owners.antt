-- ===== src/Pool/Owners.antt =====
-- The program around a pool: variables that hold proxies, in any order of the calls of pool.h.
use cpp_socket_programming.Prelude.{ℕ, List, [], ◌∷◌, ◌==◌, if◌then◌else◌}
use cpp_socket_programming.Pool.{
  Driver, NodeOrder, Pool, Proxy, null_proxy, get_connection, destroy_proxy, release_proxy,
  move_construct, move_assign,
}

-- `vars i` is the proxy of variable `i`; a variable whose life is over holds the null proxy. A
-- declaration of a variable that is alive stands for the move assignment to it.
pub record System (W : Type 0) : Type 0 where
  pub pool : Pool
  pub vars : ℕ → Proxy
  pub world : W

abbrev pub put : ℕ → Proxy → (ℕ → Proxy) → ℕ → Proxy
put i x f j = if i == j then x else f j

pub data Action : Type 0 where
  gets : ℕ → Action  -- Proxy v_i = pool.get_connection();
  constructs : ℕ → ℕ → Action  -- Proxy v_i = std::move(v_j);
  assigns : ℕ → ℕ → Action  -- v_i = std::move(v_j);
  destroys : ℕ → Action  -- the life of v_i ends
  releases : ℕ → Action  -- pool.release_connection(std::move(v_i));

-- The variable keeps what is left of a proxy that was moved out, and another takes the proxy.
abbrev pub move_vars : {W : Type 0} → ℕ → ℕ → Proxy × Proxy → System W → System W
move_vars i j (taken, left) s = record s { vars = put i taken (put j left s.vars) }

module _ {W : Type 0} (d : Driver W) (o : NodeOrder) where
  unfoldable pub step : Action → System W → System W
  step (gets i) s =
      let ((x, p), w) = get_connection d o s.pool s.world in
      record { pool = p; vars = put i x s.vars; world = w }
  step (constructs i j) s = move_vars i j (move_construct (s.vars j)) s
  step (assigns i j) s = if i == j then s else move_vars i j (move_assign (s.vars i) (s.vars j)) s
  step (destroys i) s = record s {
    pool = destroy_proxy o (s.vars i) s.pool;
    vars = put i null_proxy s.vars;
  }
  step (releases i) s = record s { pool = release_proxy o (s.vars i) s.pool }

  unfoldable pub run : List Action → System W → System W
  unfolding step
  run [] s = s
  run (a ∷ rest) s = run rest (step a s)
