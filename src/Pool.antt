-- ===== src/Pool.antt =====
-- connection-pool/src/pool.cpp: the pool of connections and the proxies that give them back.
-- A `Connection *` is a number, and nullptr is 0. Each method runs under the pool's mutex, so it is
-- one step. The order of an `unordered_map` is its iteration order in a list, and where a new node
-- lands is a parameter.
pub mod Factory
pub mod Nodes
pub mod Acquire
pub mod Release
pub mod Owners
pub mod Ownership
pub mod Misuse
pub mod Setup
pub mod Samples
mod Tests
use cpp_socket_programming.Prelude.{
  ℕ, ◌+◌, ◌≡◌, Bool, true, false, ◌&&◌, not, List, [], ◌∷◌, Option, none, some, ◌==◌, if◌then◌else◌,
  length, count, contains, erase,
}

-- What a virtual method of `Connection` does: it returns, or it throws a std::exception.
pub data Outcome : Type 0 where
  returned : Bool → Outcome
  threw : Outcome

-- The interface `Connection`, over the state `W` of the connections and of the network.
pub record Driver (W : Type 0) : Type 0 where
  pub is_healthy : ℕ → W → Outcome × W
  pub connect : ℕ → W → Outcome × W
  pub heart_beat : ℕ → W → Outcome × W

-- `std::unordered_map::insert`: the new node stands somewhere in the iteration order.
pub record NodeOrder : Type 0 where
  pub place : ℕ → List ℕ → List ℕ
  pub count-place :
      (a c : ℕ) (l : List ℕ) → count a (place c l) ≡ (if c == a then 1 else 0) + count a l
  pub length-place : (c : ℕ) (l : List ℕ) → length (place c l) ≡ length l + 1

pub record Pool : Type 0 where
  pub idle : List ℕ
  pub busy : List ℕ

-- `m_pool` is null or the pool.
pub record Proxy : Type 0 where
  pub attached : Bool
  pub connection : ℕ

abbrev pub null_proxy : Proxy
null_proxy = record { attached = false; connection = 0 }

module _ (o : NodeOrder) where
  -- A node whose key is there already is not inserted, and goes with its handle.
  unfoldable pub insert_node : ℕ → List ℕ → List ℕ
  insert_node c l = if contains c l then l else o.place c l

  -- The constructor emplaces the connections one after the other.
  unfoldable pub fill_idle : List ℕ → List ℕ → List ℕ
  fill_idle [] idle = idle
  fill_idle (c ∷ cs) idle = fill_idle cs (insert_node c idle)

  unfoldable pub make_pool : List ℕ → Pool
  unfolding fill_idle insert_node
  make_pool connections = record { idle = fill_idle connections []; busy = [] }

  -- The private overload, on a `Connection *`.
  unfoldable pub release_connection : ℕ → Pool → Pool
  unfolding insert_node
  release_connection c p =
      if c == 0
      then p
      else if contains c p.busy
      then record { idle = insert_node c p.idle; busy = erase c p.busy }
      else p

  -- The destructor of a proxy.
  unfoldable pub destroy_proxy : Proxy → Pool → Pool
  destroy_proxy x p = if x.attached then release_connection x.connection p else p

  -- The public overload leaves the proxy as it is.
  unfoldable pub release_proxy : Proxy → Pool → Pool
  release_proxy x p = release_connection x.connection p

  -- The rest of `get_connection`: the node moves from idle to busy, under a proxy of its own.
  unfoldable pub lend : Pool → Option ℕ → Proxy × Pool
  unfolding insert_node
  lend p none = (null_proxy, p)
  lend p (some c) = (
    record { attached = true; connection = c },
    record { idle = erase c p.idle; busy = insert_node c p.busy },
  )

unfoldable pub valid : Proxy → Pool → Bool
valid x p = if x.attached && not (x.connection == 0) then contains x.connection p.busy else false

-- The move constructor: the new proxy, and what is left of `other`.
unfoldable pub move_construct : Proxy → Proxy × Proxy
move_construct other = (other, null_proxy)

-- Move assignment between two distinct proxies: the old value of the target is dropped.
unfoldable pub move_assign : Proxy → Proxy → Proxy × Proxy
move_assign target other = (other, null_proxy)

unfoldable pub size_idle : Pool → ℕ
size_idle p = length p.idle

unfoldable pub size_busy : Pool → ℕ
size_busy p = length p.busy

unfoldable pub size : Pool → ℕ
size p = length p.busy + length p.idle

module _ {W : Type 0} (d : Driver W) where
  -- The second half of the `try` block: reconnect, and report what `connect` says.
  unfoldable pub reconnect : Outcome × W → Bool × W
  reconnect (returned b, w) = (b, w)
  reconnect (threw, w) = (true, w)

  unfoldable pub after_health : ℕ → Outcome × W → Bool × W
  after_health c (returned true, w) = (true, w)
  after_health c (returned false, w) = reconnect (d.connect c w)
  after_health c (threw, w) = (true, w)

  -- A std::exception is printed, and then `true` is returned.
  unfoldable pub check_connect : ℕ → W → Bool × W
  unfolding after_health reconnect
  check_connect c w = after_health c (d.is_healthy c w)

  -- The loop of `get_connection`: the first idle connection that passes.
  unfoldable pub first_usable : List ℕ → W → Option ℕ × W
  first_usable [] w = (none, w)
  first_usable (c ∷ cs) w =
      let (usable, w') = check_connect c w in
      elim usable [ true ↦ (some c, w') | false ↦ first_usable cs w' ]

  unfoldable pub get_connection : NodeOrder → Pool → W → (Proxy × Pool) × W
  unfolding lend first_usable
  get_connection o p w = let (found, w') = first_usable p.idle w in (lend o p found, w')

  -- Heart beats go to the idle connections in order; an exception leaves the loop.
  unfoldable pub heart_beats : List ℕ → W → Outcome × W
  heart_beats [] w = (returned true, w)
  heart_beats (c ∷ cs) w =
      let (outcome, w') = d.heart_beat c w in
      elim outcome [ returned b ↦ heart_beats cs w' | threw ↦ (threw, w') ]

  unfoldable pub heart_beat : Pool → W → Outcome × W
  unfolding heart_beats
  heart_beat p w = heart_beats p.idle w
