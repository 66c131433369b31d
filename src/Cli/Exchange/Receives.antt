-- ===== src/Cli/Exchange/Receives.antt =====
-- The client reads exactly one response, however its bytes are cut.
use boutique.Common.{
  drop-all, ℕ, zero, suc, ◌+◌, ◌-◌, ◌≤◌, ◌≡◌, refl, ap, ◌∙◌, true, false, inl, inr, none, some,
  List, [], ◌∷◌, ◌++◌, append_assoc, append-nil, arith, Bytes, length, length-append, replicate,
  Bool-cases, joined, AreNonEmpty,
}
use boutique.Core.StreamBuf
use boutique.Core.StreamBuf.{StreamBuf}
use boutique.Core.StreamBuf.Laws
use boutique.Core.StreamBuf.Laws.{length-contents, append-contents, consume-contents, empty_iff}
use boutique.Protocol.Messages.{Response}
use boutique.Protocol.Read.{Read, success, incomplete, invalid}
use boutique.Protocol.Read.Laws.{Extends}
use boutique.Protocol.Binary.{read_response, write_response}
use boutique.Protocol.Binary.RoundTrip.{FitsResponse, read_response-write_response}
use boutique.Protocol.Binary.Stream.{read_response_stable}
use boutique.Cli.Exchange.{Session, response, on_read, receive, receive_loop}

-- A part of a written response that ends before it does is not read as anything.
written_part :
    (c more : Bytes) (res : Response) (r : Read Response)
    → FitsResponse res
    → c ++ more ≡ write_response res
    → 1 ≤ length more
    → read_response c ≡ r
    → r ≡ incomplete
written_part c more res r fits split pos e =
    go r (rw (split, e) at (read_response_stable c more))
      (rw append-nil at (read_response-write_response res [] fits))
  where
    go :
        (r : Read Response)
        → Extends more r (read_response (write_response res))
        → read_response (write_response res) ≡ success res []
        → r ≡ incomplete
    go incomplete ext whole = refl
    go invalid ext whole = cc
    go (success other rest) ext whole =
        let none_left : rest ++ more ≡ [] = cc in
        absurd (omega (arith, pos, ap length none_left, length-append rest more))

not_empty-contents :
    (s : StreamBuf)
    → StreamBuf.Laws.IsValid s
    → 1 ≤ length (StreamBuf.contents s)
    → StreamBuf.empty s ≡ false
not_empty-contents s v pos = elim (Bool-cases (StreamBuf.empty s)) [
  | inl gone ↦ absurd (omega (arith, pos, ap length ((empty_iff s v).0 gone)))
  | inr there ↦ there
]

-- the call that gets the last part
receive-last :
    (s : Session) (b : Bytes) (res : Response)
    → StreamBuf.Laws.IsValid s.stream
    → FitsResponse res
    → 1 ≤ length b
    → StreamBuf.contents s.stream ++ b ≡ write_response res
    → (stream : StreamBuf) × (receive s b
        ≡ some (record { stream = stream; shown = s.shown ++ response res ∷ [] }, false))
      × StreamBuf.Laws.IsValid stream
      × (StreamBuf.contents stream ≡ [])
unfolding receive on_read
receive-last s b res v fits pos split =
    let stream = StreamBuf.append s.stream b in
    let (v', shown) = append-contents s.stream b v pos in
    let whole : StreamBuf.contents stream ≡ write_response res = shown ∙ split in
    let read : read_response (StreamBuf.contents stream) ≡ success res [] =
      rw whole (rw append-nil at (read_response-write_response res [] fits)) in
    let (rest, run, v'', left) =
      consume-contents stream (StreamBuf.size stream - 0) v' (omega arith) in
    let gone : StreamBuf.contents rest ≡ [] =
      left
      ∙ drop-all (StreamBuf.size stream - 0) (StreamBuf.contents stream)
          (omega (arith, length-contents stream v')) in
    let empty = (empty_iff rest v'').1 gone in (rest, rw (read, run, empty), v'', gone)

-- a call that gets an earlier part
receive-part :
    (s : Session) (b more : Bytes) (res : Response)
    → StreamBuf.Laws.IsValid s.stream
    → FitsResponse res
    → 1 ≤ length b
    → 1 ≤ length more
    → (StreamBuf.contents s.stream ++ b) ++ more ≡ write_response res
    → receive s b ≡ some (record s { stream = StreamBuf.append s.stream b }, true)
unfolding receive on_read
receive-part s b more res v fits pos left split =
    let stream = StreamBuf.append s.stream b in
    let (v', shown) = append-contents s.stream b v pos in
    let part =
      written_part (StreamBuf.contents stream) more res _ fits (rw shown split) left refl in
    let there : StreamBuf.empty stream ≡ false =
      not_empty-contents stream v'
        (omega (arith, ap length shown, length-append (StreamBuf.contents s.stream) b)) in
    rw (part, there)

-- Where the system hands the client the bytes of one written response in any non-empty pieces, the
-- loop ends with the last of them, having shown this response and nothing else, and the buffer is
-- empty. Calls of `recv` that would come later are not made.
pub receive_loop-response :
    (s : Session) (b : Bytes) (pieces later : List Bytes) (res : Response)
    → StreamBuf.Laws.IsValid s.stream
    → FitsResponse res
    → AreNonEmpty (b ∷ pieces)
    → StreamBuf.contents s.stream ++ joined (b ∷ pieces) ≡ write_response res
    → (stream : StreamBuf) × (receive_loop s ((b ∷ pieces) ++ later)
        ≡ some (record { stream = stream; shown = s.shown ++ response res ∷ [] }, later))
      × StreamBuf.Laws.IsValid stream
      × (StreamBuf.contents stream ≡ [])
unfolding receive_loop
receive_loop-response s b [] later res v fits full split =
    let (stream, run, v', gone) = receive-last s b res v fits full.0 (rw append-nil at split) in
    (stream, rw run, v', gone)
receive_loop-response s b (b' ∷ pieces) later res v fits full split =
    let (v', shown) = append-contents s.stream b v full.0 in
    let split' : (StreamBuf.contents s.stream ++ b) ++ joined (b' ∷ pieces) ≡ write_response res =
      rw append_assoc split in
    let run =
      receive-part s b (joined (b' ∷ pieces)) res v fits full.0
        (omega (arith, full.1.0, length-append b' (joined pieces))) split' in
    let (stream, rest, v'', gone) =
      receive_loop-response (record s { stream = StreamBuf.append s.stream b }) b' pieces later res
        v' fits full.1 (rw shown split') in
    (stream, rw run rest, v'', gone)

append-nothing : (s : StreamBuf) → StreamBuf.append s [] ≡ s
unfolding StreamBuf.append
append-nothing s =
    let same : s.m_size + 0 ≡ s.m_size = omega arith in
    λ i. record { m_size = same i; m_used = s.m_used; m_buf = append-nil s.m_buf i }

receive-nothing :
    (s : Session)
    → StreamBuf.Laws.IsValid s.stream
    → 1 ≤ length (StreamBuf.contents s.stream)
    → read_response (StreamBuf.contents s.stream) ≡ incomplete
    → receive s [] ≡ some (s, true)
unfolding receive on_read
receive-nothing s v pos part = rw (append-nothing s.stream, part, not_empty-contents s.stream v pos)

-- When the server closes the connection inside of a response, so that every call of `recv` gives
-- nothing, a round of the loop changes nothing and goes on, and the loop does not end, however many
-- calls it makes.
pub receive_loop-closed :
    (s : Session) (n : ℕ)
    → StreamBuf.Laws.IsValid s.stream
    → 1 ≤ length (StreamBuf.contents s.stream)
    → read_response (StreamBuf.contents s.stream) ≡ incomplete
    → (receive s [] ≡ some (s, true)) × (receive_loop s (replicate n []) ≡ none)
unfolding receive_loop
receive_loop-closed s zero v pos part = (receive-nothing s v pos part, refl)
receive_loop-closed s (suc n) v pos part =
    let stays = receive-nothing s v pos part in
    (stays, rw stays (receive_loop-closed s n v pos part).1)
