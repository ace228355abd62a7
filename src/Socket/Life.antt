-- ===== src/Socket/Life.antt =====
-- The life of Socket objects: constructors, copies, operator= and the destructor, which share a
-- counter on the heap. The objects stand in places; a handle is what one object's fields hold. On
-- POSIX `Start` only counts and `End` does nothing.
use cpp_socket_programming.Prelude.{
  ℕ, suc, ◌+◌, ◌-◌, Bool, true, false, ◌&&◌, List, [], ◌∷◌, Option, none, some, ◌==◌, ltb,
  if◌then◌else◌, length, get_or, set,
}

pub record Handle : Type 0 where
  pub counter : ℕ  -- refCounter_
  pub descriptor : ℕ  -- s_

pub record Store : Type 0 where
  pub objects : List (Option Handle)
  pub counters : ℕ → ℕ
  pub fresh : ℕ  -- the next address that `new int(1)` gives
  pub closed : List Handle  -- the handles whose descriptor has been closed, the last one first
  pub live : ℕ  -- nofSockets_

pub data Action : Type 0 where
  constructs : ℕ → ℕ → Action  -- Socket o_i(fd);
  copies : ℕ → ℕ → Action  -- Socket o_i(o_j);
  assigns : ℕ → ℕ → Action  -- o_i = o_j;
  destroys : ℕ → Action  -- the life of o_i ends

abbrev pub put : ℕ → ℕ → (ℕ → ℕ) → ℕ → ℕ
put c n f d = if c == d then n else f d

abbrev pub slot : ℕ → Store → Option Handle
slot i s = get_or s.objects i none

abbrev pub is_none {ℓ} : {A : Type ℓ} → Option A → Bool
is_none none = true
is_none (some a) = false

abbrev pub is_vacant : ℕ → Store → Bool
is_vacant i s = ltb i (length s.objects) && is_none (slot i s)

-- `Socket(SOCKET s)`.
unfoldable pub construct : ℕ → ℕ → Store → Store
construct i fd s = record s {
  objects = set s.objects i (some (record { counter = s.fresh; descriptor = fd }));
  counters = put s.fresh 1 s.counters;
  fresh = suc s.fresh;
  live = s.live + 1;
}

-- `Socket(const Socket &)`, and `operator=`, which does the same to an object that holds a handle.
unfoldable pub share : ℕ → Handle → Store → Store
share i h s = record s {
  objects = set s.objects i (some h);
  counters = put h.counter (s.counters h.counter + 1) s.counters;
  live = s.live + 1;
}

-- `~Socket()`.
unfoldable pub drop_object : ℕ → Handle → Store → Store
drop_object i h s =
    let left = s.counters h.counter - 1 in
    record s {
      objects = set s.objects i none;
      counters = put h.counter left s.counters;
      closed = if left == 0 then h ∷ s.closed else s.closed;
      live = s.live - 1;
    }

abbrev pub with_handle : Option Handle → (Handle → Store) → Store → Store
with_handle none f s = s
with_handle (some h) f s = f h

unfoldable pub step : Action → Store → Store
step (constructs i fd) s = if is_vacant i s then construct i fd s else s
step (copies i j) s = with_handle (slot j s) (λ h. if is_vacant i s then share i h s else s) s
step (assigns i j) s = with_handle (slot i s) (λ old. with_handle (slot j s) (λ h. share i h s) s) s
step (destroys i) s = with_handle (slot i s) (λ h. drop_object i h s) s

unfoldable pub run : List Action → Store → Store
run [] s = s
run (a ∷ rest) s = run rest (step a s)
