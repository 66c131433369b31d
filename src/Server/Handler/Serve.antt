-- ===== src/Server/Handler/Serve.antt =====
-- What the handler does, without the buffer: commands are read off a string of bytes and executed
-- one after another, until the rest is no whole command or is refused.
use boutique.Common.{
  ℕ, zero, suc, ◌-◌, ◌≤◌, ◌<◌, ◌≡◌, refl, sym, ap, ◌∙◌, Bool, true, false, Option, none, some, List,
  [], ◌∷◌, ◌++◌, map, append_assoc, append-nil, map-append, arith, Bytes, IsBytes, IsBytes-append,
  length, length-append, drop-length_append, Option-cases, inl, inr,
}
use boutique.Core.Serialize.{bind_option}
use boutique.Core.StreamBuf
use boutique.Core.StreamBuf.{StreamBuf}
use boutique.Core.StreamBuf.Laws
use boutique.Core.StreamBuf.Laws.{length-contents, append-contents, consume-contents}
use boutique.Db.Collection.{KeyKind}
use boutique.Db.Database.{Database}
use boutique.Protocol.Messages.{Command, Response}
use boutique.Protocol.Read.{Read, success, incomplete, invalid}
use boutique.Protocol.Binary.{read_command, write_command, write_response}
use boutique.Protocol.Binary.Sound.{read_command-eq-success_iff}
use boutique.Core.Serialize
use boutique.Server.Execute.{execute}
use boutique.Server.Handler.{Client, write_and_send, handle_read, handle_loop}

-- the database, the bytes left over, the responses in order, and whether the rest is refused
pub record Served : Type 0 where
  pub db : Database
  pub left : Bytes
  pub sent : List Response
  pub refused : Bool

pub length-write_command : (cmd : Command) → 1 ≤ length (write_command cmd)
unfolding write_command boutique.Core.Serialize.write_uint
length-write_command cmd = omega arith

-- what a successful read says of the bytes
pub read_command-split :
    (c : Bytes) {cmd : Command} {rest : Bytes}
    → IsBytes c
    → read_command c ≡ success cmd rest
    → (p : Bytes) × (c ≡ p ++ rest) × (1 ≤ length p) × IsBytes rest
read_command-split c {cmd} {rest} bytes e =
    let (split, fits) = (read_command-eq-success_iff c rest cmd bytes).0 e in
    (
      write_command cmd,
      split,
      length-write_command cmd,
      (IsBytes-append (write_command cmd) rest (rw split at bytes)).1,
    )

module _ (hash : KeyKind → Bytes → ℕ) where
  unfoldable pub serve_read :
      (Database → Bytes → Option Served) → Database → Bytes → Read Command → Option Served
  serve_read later db c incomplete = some (record { db = db; left = c; sent = []; refused = false })
  serve_read later db c invalid =
      some (record { db = db; left = c; sent = Response.invalid_command ∷ []; refused = true })
  serve_read later db c (success cmd rest) =
      bind_option (execute hash db cmd)
        λ r. bind_option (later r.0 rest) λ o. some (record o { sent = r.1 ++ o.sent })

  unfoldable pub serve : ℕ → Database → Bytes → Option Served
  serve zero db c = none
  serve (suc fuel) db c = serve_read (serve fuel) db c (read_command c)

  -- with fuel for every byte
  unfoldable pub serve_all : Database → Bytes → Option Served
  serve_all db c = serve (suc (length c)) db c

  serve_read-congr :
      (f g : Database → Bytes → Option Served) (db : Database) (c : Bytes) (r : Read Command)
      → ((cmd : Command) (rest : Bytes)
          → r ≡ success cmd rest
          → (db' : Database) → f db' rest ≡ g db' rest)
      → serve_read f db c r ≡ serve_read g db c r
  unfolding serve_read
  serve_read-congr f g db c incomplete h = refl
  serve_read-congr f g db c invalid h = refl
  serve_read-congr f g db c (success cmd rest) h = elim (Option-cases (execute hash db cmd)) [
    | inl e ↦ rw e
    | inr (r, e) ↦ rw (e, h cmd rest refl r.0)
  ]

  -- Fuel above the number of bytes is enough.
  pub serve_fuel :
      (f g : ℕ) (db : Database) (c : Bytes)
      → IsBytes c
      → length c < f
      → length c < g
      → serve f db c ≡ serve g db c
  unfolding serve
  serve_fuel zero g db c bytes hf hg = absurd (omega arith)
  serve_fuel (suc f) zero db c bytes hf hg = absurd (omega arith)
  serve_fuel (suc f) (suc g) db c bytes hf hg =
      serve_read-congr (serve f) (serve g) db c (read_command c) λ cmd rest e db'.
        let (p, split, pos, in_rest) = read_command-split c bytes e in
        let shorter : length rest < length c =
          omega (arith, ap length split, length-append p rest, pos) in
        serve_fuel f g db' rest in_rest (omega arith) (omega arith)

-- The handler's state `s'` shows `o`, from the state `s`.
pub record Shows (s s' : Client) (o : Served) : Type 0 where
  pub valid : StreamBuf.Laws.IsValid s'.stream
  pub left : StreamBuf.contents s'.stream ≡ o.left
  pub db : s'.db ≡ o.db
  pub sent : s'.sent ≡ s.sent ++ map write_response o.sent
  pub closed : s'.closed ≡ s.closed

abbrev pub Matches : Client → Option Client → Option Served → Type 0
Matches s (some s') (some o) = Shows s s' o
Matches s none none = Unit
Matches s _ _ = ⊥

-- one more command in front
Matches-after :
    (s s₁ : Client) (responses : List Response) (a : Option Client) (b : Option Served)
    → s₁.sent ≡ s.sent ++ map write_response responses
    → s₁.closed ≡ s.closed
    → Matches s₁ a b
    → Matches s a (bind_option b λ o. some (record o { sent = responses ++ o.sent }))
Matches-after s s₁ responses none none es ec m = tt
Matches-after s s₁ responses none (some o) es ec m = absurd m
Matches-after s s₁ responses (some s') none es ec m = absurd m
Matches-after s s₁ responses (some s') (some o) es ec m = record {
  valid = m.valid;
  left = m.left;
  db = m.db;
  sent = rw (map-append, ← append_assoc, ← es) m.sent;
  closed = m.closed ∙ ec;
}

-- After a command has been read, what is consumed leaves the bytes behind it.
consume_command :
    (stream : StreamBuf) (p rest : Bytes)
    → StreamBuf.Laws.IsValid stream
    → StreamBuf.contents stream ≡ p ++ rest
    → (stream' : StreamBuf) × (StreamBuf.consume stream (StreamBuf.size stream - length rest)
        ≡ some stream')
      × StreamBuf.Laws.IsValid stream'
      × (StreamBuf.contents stream' ≡ rest)
consume_command stream p rest v split =
    let n = StreamBuf.size stream - length rest in
    let len : n ≡ length p =
      omega (arith, length-contents stream v, ap length split, length-append p rest) in
    let (stream', run, v', shown) = consume-contents stream n v (omega arith) in
    (stream', run, v', shown ∙ rw (len, split) (drop-length_append p rest))

module _ (hash : KeyKind → Bytes → ℕ) where
  abbrev pub LoopMatches : ℕ → Client → Type 0
  LoopMatches f s =
      let c = StreamBuf.contents s.stream in
      Matches s (handle_loop hash f s c) (serve hash f s.db c)

  handle_read-Matches :
      (f : ℕ) (s : Client) (r : Read Command)
      → ((s₁ : Client)
          → StreamBuf.Laws.IsValid s₁.stream
          → IsBytes (StreamBuf.contents s₁.stream)
          → LoopMatches f s₁)
      → StreamBuf.Laws.IsValid s.stream
      → IsBytes (StreamBuf.contents s.stream)
      → read_command (StreamBuf.contents s.stream) ≡ r
      → Matches s
          (handle_read hash (handle_loop hash f) s r)
          (serve_read hash (serve hash f) s.db (StreamBuf.contents s.stream) r)
  unfolding handle_read serve_read write_and_send
  handle_read-Matches f s incomplete ih v bytes e = record {
    valid = v;
    left = refl;
    db = refl;
    sent = sym (append-nil s.sent);
    closed = refl;
  }
  handle_read-Matches f s invalid ih v bytes e = record {
    valid = v;
    left = refl;
    db = refl;
    sent = refl;
    closed = refl;
  }
  handle_read-Matches f s (success cmd rest) ih v bytes e =
      elim (Option-cases (execute hash s.db cmd)) [
        | inl failed ↦ rw failed tt
        | inr (r, done) ↦
            let (p, split, pos, in_rest) = read_command-split _ bytes e in
            let (stream, run, v', shown) = consume_command s.stream p rest v split in
            let s₁ = write_and_send (record s { db = r.0; stream = stream }) r.1 in
            let m : LoopMatches f s₁ = ih s₁ v' (rw shown in_rest) in
            rw (done, run) (Matches-after s s₁ r.1 _ _ refl refl (rw shown at m))
      ]

  -- The handler's loop does what `serve` does, on the bytes of its buffer.
  pub handle_loop-Matches :
      (f : ℕ) (s : Client)
      → StreamBuf.Laws.IsValid s.stream
      → IsBytes (StreamBuf.contents s.stream)
      → LoopMatches f s
  unfolding handle_loop serve
  handle_loop-Matches zero s v bytes = tt
  handle_loop-Matches (suc f) s v bytes =
      handle_read-Matches f s (read_command (StreamBuf.contents s.stream)) (handle_loop-Matches f) v
        bytes refl
