-- ===== src/Server/Handler/Calls.antt =====
-- How the bytes of a client are cut into calls of recv_handler does not matter, until a command is
-- refused; and what follows a refusal.
use boutique.Common.{
  ℕ, zero, suc, ◌≤◌, ◌≡◌, ◌≢◌, refl, sym, ◌∙◌, true, false, Option, none, some, List, ◌++◌,
  append_assoc, map-append, arith, Bytes, IsBytes, length, length-append, ◌==◌, Option-cases,
  Bool-cases, inl, inr, [], ◌∷◌, IsBytes-append, IsBytes-join,
}
use boutique.Core.Serialize.{bind_option}
use boutique.Core.StreamBuf
use boutique.Core.StreamBuf.{StreamBuf}
use boutique.Core.StreamBuf.Laws
use boutique.Core.StreamBuf.Laws.{length-contents, append-contents, consume-contents}
use boutique.Db.Collection.{KeyKind}
use boutique.Db.Database.{Database}
use boutique.Protocol.Messages.{Command, Response}
use boutique.Protocol.Read.{Read, success, incomplete, invalid}
use boutique.Protocol.Binary.{read_command, write_response}
use boutique.Server.Execute.{execute}
use boutique.Protocol.Binary.Stream.{read_command_stable}
use boutique.Server.Handler.{Client, handle_loop, recv_handler}
use boutique.Server.Handler.Chunks.{continue, Ends, serve-append, serve-Ends}
use boutique.Server.Handler.Serve.{
  Served, Shows, Matches, serve, serve_all, serve_read, handle_loop-Matches, read_command-split,
}

-- A client in a state that the handler leaves it in.
abbrev pub IsReady : Client → Type 0
IsReady s = StreamBuf.Laws.IsValid s.stream

-- what a client is waiting with
abbrev pub pending : Client → Bytes
pending s = StreamBuf.contents s.stream

-- Both fail, or both end with the same database, the same bytes pending and the same bytes sent.
abbrev pub SameOutcome : Option Client → Option Client → Type 0
SameOutcome (some s) (some t) =
    (s.db ≡ t.db) × (pending s ≡ pending t) × (s.sent ≡ t.sent) × (s.closed ≡ t.closed)
SameOutcome none none = Unit
SameOutcome _ _ = ⊥

not_empty : (n : ℕ) → 1 ≤ n → (n == 0) ≡ false
not_empty n h = ground arith

-- recv_handler appends to the buffer first, and asks for more bytes last.
Matches-receiving :
    (s : Client) (stream : StreamBuf) (a : Option Client) (b : Option Served)
    → Matches (record s { stream = stream }) a b
    → Matches s (bind_option a λ s'. some (record s' { receiving = true })) b
Matches-receiving s stream none none m = tt
Matches-receiving s stream none (some o) m = m
Matches-receiving s stream (some s') none m = m
Matches-receiving s stream (some s') (some o) m = record {
  valid = m.valid;
  left = m.left;
  db = m.db;
  sent = m.sent;
  closed = m.closed;
}

module _ (hash : KeyKind → Bytes → ℕ) where
  -- When at least one byte arrives at a client whose buffer is well formed, recv_handler does what
  -- serving the bytes pending and those received, as one string of bytes, does: the same database,
  -- the same responses sent in the same order, the same bytes kept, and it fails where that fails.
  pub recv_handler-Matches :
      (s : Client) (received : Bytes)
      → IsReady s
      → 1 ≤ length received
      → IsBytes (pending s ++ received)
      → Matches s (recv_handler hash s received) (serve_all hash s.db (pending s ++ received))
  unfolding recv_handler serve_all
  recv_handler-Matches s received v pos bytes =
      let stream = StreamBuf.append s.stream received in
      let (v', shown) = append-contents s.stream received v pos in
      let c = StreamBuf.contents stream in
      let m =
        handle_loop-Matches hash (suc (length c)) (record s { stream = stream }) v'
          (rw shown bytes) in
      rw (not_empty (length received) pos, ← shown)
        (Matches-receiving s stream
          (handle_loop hash (suc (length c)) (record s { stream = stream }) c)
          (serve hash (suc (length c)) s.db c) m)

  -- the bytes left over are bytes
  abbrev LeavesBytes : Option Served → Type 0
  LeavesBytes none = Unit
  LeavesBytes (some o) = IsBytes o.left

  LeavesBytes-after :
      (responses : List Response) (b : Option Served)
      → LeavesBytes b
      → LeavesBytes (bind_option b λ o. some (record o { sent = responses ++ o.sent }))
  LeavesBytes-after responses none h = tt
  LeavesBytes-after responses (some o) h = h

  serve_read-LeavesBytes :
      (f : Database → Bytes → Option Served) (db : Database) (c : Bytes) (r : Read Command)
      → read_command c ≡ r
      → IsBytes c
      → ((db : Database) (c : Bytes) → IsBytes c → LeavesBytes (f db c))
      → LeavesBytes (serve_read hash f db c r)
  unfolding serve_read
  serve_read-LeavesBytes f db c incomplete e bytes ih = bytes
  serve_read-LeavesBytes f db c invalid e bytes ih = bytes
  serve_read-LeavesBytes f db c (success cmd rest) e bytes ih =
      let (_, _, _, in_rest) = read_command-split c bytes e in
      elim (Option-cases (execute hash db cmd)) [
        | inl failed ↦ rw failed tt
        | inr (r, done) ↦ rw done (LeavesBytes-after r.1 (f r.0 rest) (ih r.0 rest in_rest))
      ]

  serve-LeavesBytes :
      (f : ℕ) (db : Database) (c : Bytes) → IsBytes c → LeavesBytes (serve hash f db c)
  unfolding serve
  serve-LeavesBytes zero db c bytes = tt
  serve-LeavesBytes (suc f) db c bytes =
      serve_read-LeavesBytes (serve hash f) db c (read_command c) refl bytes (serve-LeavesBytes f)

-- Two calls match what one call matches.
SameOutcome-after :
    (s s₁ : Client) (o : Served) (a b : Option Client) (x : Option Served)
    → Shows s s₁ o
    → Matches s₁ a x
    → Matches s b (bind_option x λ o'. some (record o' { sent = o.sent ++ o'.sent }))
    → SameOutcome a b
SameOutcome-after s s₁ o none none x m ma mb = tt
SameOutcome-after s s₁ o none (some t) none m ma mb = absurd mb
SameOutcome-after s s₁ o none (some t) (some o') m ma mb = absurd ma
SameOutcome-after s s₁ o (some t₁) b none m ma mb = absurd ma
SameOutcome-after s s₁ o (some t₁) none (some o') m ma mb = absurd mb
SameOutcome-after s s₁ o (some t₁) (some t) (some o') m ma mb = (
  ma.db ∙ sym mb.db,
  ma.left ∙ sym mb.left,
  ma.sent ∙ rw (m.sent, mb.sent, map-append, append_assoc),
  ma.closed ∙ m.closed ∙ sym mb.closed,
)

length-append_pos : (a b : Bytes) → 1 ≤ length a → 1 ≤ length (a ++ b)
length-append_pos a b h = omega (arith, length-append a b)

module _ (hash : KeyKind → Bytes → ℕ) where
  -- After a call, and if nothing was refused in it, the next call continues as one call would.
  SameOutcome-continue :
      (s s₁ : Client) (o : Served) (b : Bytes) (whole : Option Client)
      → Shows s s₁ o
      → 1 ≤ length b
      → read_command (pending s₁) ≢ invalid
      → IsBytes (pending s₁ ++ b)
      → Ends hash (some o)
      → Matches s whole (continue hash o b)
      → SameOutcome (recv_handler hash s₁ b) whole
  unfolding continue
  SameOutcome-continue s s₁ o b whole m pos fresh bytes ends mb = elim (Bool-cases o.refused) [
    | inl stop ↦ absurd (fresh (rw m.left (rw stop at ends)))
    | inr go_on ↦
        SameOutcome-after s s₁ o (recv_handler hash s₁ b) whole
          (serve_all hash s₁.db (pending s₁ ++ b)) m
          (recv_handler-Matches hash s₁ b m.valid pos bytes) (rw (m.db, m.left) (rw go_on at mb))
  ]

  -- what `recv_handler-append` says, by what the first call has served
  SameOutcome-served :
      (s s₁ : Client) (a b : Bytes) (x : Option Served)
      → IsReady s
      → 1 ≤ length a
      → 1 ≤ length b
      → IsBytes (pending s ++ (a ++ b))
      → read_command (pending s₁) ≢ invalid
      → serve_all hash s.db (pending s ++ a) ≡ x
      → Matches s (some s₁) x
      → Ends hash x
      → LeavesBytes hash x
      → SameOutcome (recv_handler hash s₁ b) (recv_handler hash s (a ++ b))
  unfolding serve_all
  SameOutcome-served s s₁ a b none v pos_a pos_b bytes fresh e m ends left = absurd m
  SameOutcome-served s s₁ a b (some o) v pos_a pos_b bytes fresh e m ends left =
      let c = pending s ++ a in
      let all_bytes : IsBytes (c ++ b) = rw append_assoc bytes in
      let parts =
        serve-append hash (suc (length c)) (suc (length (c ++ b))) s.db c b all_bytes (omega arith)
          (omega arith) in
      let whole = recv_handler-Matches hash s (a ++ b) v (length-append_pos a b pos_a) bytes in
      SameOutcome-continue s s₁ o b (recv_handler hash s (a ++ b)) m pos_b fresh
        (rw m.left (IsBytes-join o.left b left (IsBytes-append c b all_bytes).1)) ends
        (rw (← append_assoc, parts, e) at whole)

  -- When a client that waits for the rest of a command sends `a` and then `b`, the database, the
  -- responses sent, the bytes kept and whether a call fails are the same as if it had sent both at
  -- once. The first call returns, and what it keeps is not a refused command.
  pub recv_handler-append :
      (s s₁ : Client) (a b : Bytes)
      → IsReady s
      → 1 ≤ length a
      → 1 ≤ length b
      → IsBytes (pending s ++ (a ++ b))
      → recv_handler hash s a ≡ some s₁
      → read_command (pending s₁) ≢ invalid
      → SameOutcome (recv_handler hash s₁ b) (recv_handler hash s (a ++ b))
  unfolding serve_all
  recv_handler-append s s₁ a b v pos_a pos_b bytes run fresh =
      let c = pending s ++ a in
      let in_c : IsBytes c = (IsBytes-append c b (rw append_assoc bytes)).0 in
      SameOutcome-served s s₁ a b (serve_all hash s.db c) v pos_a pos_b bytes fresh refl
        (rw run at (recv_handler-Matches hash s a v pos_a in_c))
        (serve-Ends hash (suc (length c)) s.db c)
        (serve-LeavesBytes hash (suc (length c)) s.db c in_c)

  serve_all-refused :
      (db : Database) (c : Bytes)
      → read_command c ≡ invalid
      → serve_all hash db c
        ≡ some (record { db = db; left = c; sent = Response.invalid_command ∷ []; refused = true })
  unfolding serve_all serve serve_read
  serve_all-refused db c e = rw e

  Matches-run :
      (s : Client) (a : Option Client) (o : Served)
      → Matches s a (some o)
      → (s' : Client) × (a ≡ some s') × Shows s s' o
  Matches-run s none o m = absurd m
  Matches-run s (some s') o m = (s', refl, m)

  -- Once the bytes kept begin with a command that is refused, whatever is sent next leaves the
  -- database as it is, is answered by one more invalid_command and is kept behind those bytes, which
  -- still are refused: the connection never serves a command again.
  pub recv_handler-refused :
      (s : Client) (b : Bytes)
      → IsReady s
      → 1 ≤ length b
      → IsBytes (pending s ++ b)
      → read_command (pending s) ≡ invalid
      → (s' : Client) × (recv_handler hash s b ≡ some s')
        × IsReady s'
        × (s'.db ≡ s.db)
        × (s'.sent ≡ s.sent ++ (write_response Response.invalid_command ∷ []))
        × (pending s' ≡ pending s ++ b)
        × (read_command (pending s') ≡ invalid)
  recv_handler-refused s b v pos bytes refused =
      let c = pending s ++ b in
      let still : read_command c ≡ invalid = rw refused at (read_command_stable (pending s) b) in
      let (s', run, m) =
        Matches-run s (recv_handler hash s b) _
          (rw (serve_all-refused s.db c still) at (recv_handler-Matches hash s b v pos bytes)) in
      (s', run, m.valid, m.db, m.sent, m.left, rw m.left still)
