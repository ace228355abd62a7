-- ===== src/Pipeline.antt =====
-- protocol-server/src/pipeline/CProtocolPipeline.cpp: the thread that reads one request from a
-- client, hands it to the handler and sends the response. What each round of the loop finds on the
-- socket is a list; a loop that has used it up is still waiting, which is `none`.
pub mod Request
mod Tests
use cpp_socket_programming.Prelude.{
  ℕ, ◌+◌, List, [], ◌∷◌, ◌++◌, Option, none, some, ◌==◌, if◌then◌else◌, map,
}

abbrev pub Bytes : Type 0
Bytes = List ℕ

-- One round: the socket is not readable, or `ReceiveBytes` returns this, where no bytes stand for a
-- client that is gone and for an error.
pub data Poll : Type 0 where
  quiet : Poll
  received : Bytes → Poll

-- What the thread does to the client's socket.
pub data Effect : Type 0 where
  sends : Bytes → Effect
  closes : Effect

-- The loop: the whole request, and the rounds that it has not needed.
unfoldable pub read_request : ℕ → Bytes → List Poll → Option (Bytes × List Poll)
read_request retry request [] = none
read_request retry request (quiet ∷ rest) =
    let more = read_request (retry + 1) request rest in
    if retry + 1 == 100 then some (request, rest) else more
read_request retry request (received [] ∷ rest) = some (request, rest)
read_request retry request (received (b ∷ bytes) ∷ rest) =
    read_request retry (request ++ b ∷ bytes) rest

module _ {S : Type 0} where
  -- Behind the loop, with the handler's `HandleData` over its state.
  unfoldable pub respond : (Bytes → S → Bytes × S) → Bytes → S → List Effect × S
  respond handle [] s = (closes ∷ [], s)
  respond handle (b ∷ bytes) s =
      let (response, s') = handle (b ∷ bytes) s in (sends response ∷ closes ∷ [], s')

  -- The handler with what the loop returns.
  abbrev pub respond_to :
      (Bytes → S → Bytes × S)
      → S
      → Option (Bytes × List Poll)
      → Option ((List Effect × S) × List Poll)
  respond_to handle s none = none
  respond_to handle s (some (request, rest)) = some (respond handle request s, rest)

  -- `CProtocolPipeline`: with no handler it returns at once, and the socket stays open.
  unfoldable pub pipeline :
      Option (Bytes → S → Bytes × S) → List Poll → S → Option ((List Effect × S) × List Poll)
  unfolding read_request respond
  pipeline none polls s = some (([], s), polls)
  pipeline (some handle) polls s = respond_to handle s (read_request 0 [] polls)
