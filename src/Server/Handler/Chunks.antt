-- ===== src/Server/Handler/Chunks.antt =====
-- Serving a string of bytes in two parts.
use boutique.Common.{
  ℕ, zero, suc, ◌<◌, ◌≡◌, refl, ap, ◌∙◌, Option, none, some, List, [], ◌++◌, append_assoc, arith,
  Bytes, IsBytes, IsBytes-append, length, length-append, if◌then◌else◌, Option-cases, Bool-cases,
  inl, inr,
}
use boutique.Core.Serialize.{bind_option}
use boutique.Db.Collection.{KeyKind}
use boutique.Db.Database.{Database}
use boutique.Protocol.Messages.{Command, Response}
use boutique.Protocol.Read.{Read, success, incomplete, invalid}
use boutique.Protocol.Binary.{read_command}
use boutique.Protocol.Binary.Stream.{read_command_stable}
use boutique.Server.Execute.{execute}
use boutique.Server.Handler.Serve.{
  Served, serve, serve_read, serve_all, serve_fuel, read_command-split,
}

module _ (hash : KeyKind → Bytes → ℕ) where
  -- what is done with more bytes after `o`
  unfoldable pub continue : Served → Bytes → Option Served
  continue o more =
      if o.refused
      then some (record o { left = o.left ++ more })
      else (bind_option (serve_all hash o.db (o.left ++ more))
          λ o'. some (record o' { sent = o.sent ++ o'.sent }))

  -- where serving stops, the rest is no whole command, or is refused
  abbrev pub Ends : Option Served → Type 0
  Ends none = Unit
  Ends (some o) = read_command o.left ≡ (if o.refused then invalid else incomplete)

  Ends-after :
      (responses : List Response) (b : Option Served)
      → Ends b
      → Ends (bind_option b λ o. some (record o { sent = responses ++ o.sent }))
  Ends-after responses none h = tt
  Ends-after responses (some o) h = h

  serve_read-Ends :
      (f : Database → Bytes → Option Served) (db : Database) (c : Bytes) (r : Read Command)
      → read_command c ≡ r
      → ((db : Database) (c : Bytes) → Ends (f db c))
      → Ends (serve_read hash f db c r)
  unfolding serve_read
  serve_read-Ends f db c incomplete e ih = e
  serve_read-Ends f db c invalid e ih = e
  serve_read-Ends f db c (success cmd rest) e ih = elim (Option-cases (execute hash db cmd)) [
    | inl failed ↦ rw failed tt
    | inr (r, done) ↦ rw done (Ends-after r.1 (f r.0 rest) (ih r.0 rest))
  ]

  pub serve-Ends : (f : ℕ) (db : Database) (c : Bytes) → Ends (serve hash f db c)
  unfolding serve
  serve-Ends zero db c = tt
  serve-Ends (suc f) db c = serve_read-Ends (serve hash f) db c (read_command c) refl (serve-Ends f)

  continue-after :
      (responses : List Response) (o : Served) (more : Bytes)
      → bind_option (continue o more) (λ o'. some (record o' { sent = responses ++ o'.sent }))
        ≡ continue (record o { sent = responses ++ o.sent }) more
  unfolding continue
  continue-after responses o more = elim (Bool-cases o.refused) [
    | inl stop ↦ rw stop
    | inr go_on ↦ rw go_on (elim (Option-cases (serve_all hash o.db (o.left ++ more))) [
      | inl failed ↦ rw failed
      | inr (o', done) ↦ rw (done, append_assoc)
    ])
  ]

  -- the rest of a command's round, on both sides
  continue-round :
      (responses : List Response) (a b : Option Served) (more : Bytes)
      → a ≡ bind_option b (λ o. continue o more)
      → bind_option a (λ o. some (record o { sent = responses ++ o.sent }))
        ≡ bind_option
            (bind_option b λ o. some (record o { sent = responses ++ o.sent }))
            (λ o. continue o more)
  continue-round responses a none more e = rw e
  continue-round responses a (some o) more e = rw e (continue-after responses o more)

  continue-served :
      (b : Option Served) → b ≡ bind_option b λ o. some (record o { sent = [] ++ o.sent })
  continue-served none = refl
  continue-served (some o) = refl

  serve_all-suc :
      (g : ℕ) (db : Database) (c : Bytes)
      → IsBytes c
      → length c < suc g
      → serve_read hash (serve hash g) db c (read_command c) ≡ serve_all hash db c
  unfolding serve_all serve
  serve_all-suc g db c bytes h = serve_fuel hash (suc g) (suc (length c)) db c bytes h (omega arith)

  serve_read-append :
      (f g : ℕ) (db : Database) (c more : Bytes) (r : Read Command)
      → read_command c ≡ r
      → IsBytes (c ++ more)
      → length c < suc f
      → length (c ++ more) < suc g
      → ((db' : Database) (rest : Bytes)
          → IsBytes (rest ++ more)
          → length rest < f
          → length (rest ++ more) < g
          → serve hash g db' (rest ++ more)
            ≡ bind_option (serve hash f db' rest) (λ o. continue o more))
      → serve_read hash (serve hash g) db (c ++ more) (read_command (c ++ more))
        ≡ bind_option (serve_read hash (serve hash f) db c r) (λ o. continue o more)
  serve_read-append f g db c more incomplete e bytes hf hg ih =
      unfold serve_read continue in
      (serve_all-suc g db (c ++ more) bytes hg ∙ continue-served (serve_all hash db (c ++ more)))
  serve_read-append f g db c more invalid e bytes hf hg ih =
      let stays : read_command (c ++ more) ≡ invalid = rw e at (read_command_stable c more) in
      unfold serve_read continue in rw stays
  serve_read-append f g db c more (success cmd rest) e bytes hf hg ih =
      let again : read_command (c ++ more) ≡ success cmd (rest ++ more) =
        rw e at (read_command_stable c more) in
      let (p, split, pos, in_rest) = read_command-split (c ++ more) bytes again in
      let (p', split', pos', _) = read_command-split c (IsBytes-append c more bytes).0 e in
      let shorter : length rest < length c =
        omega (arith, ap length split', length-append p' rest, pos') in
      let shorter' : length (rest ++ more) < length (c ++ more) =
        omega (arith, ap length split, length-append p (rest ++ more), pos) in
      unfold serve_read in
      elim (Option-cases (execute hash db cmd)) [
        | inl failed ↦ rw (again, failed)
        | inr (r, done) ↦
            rw (again, done)
              (continue-round r.1 (serve hash g r.0 (rest ++ more)) (serve hash f r.0 rest) more
                (ih r.0 rest in_rest (omega arith) (omega arith)))
      ]

  -- Serving more bytes at once is serving them in two parts, and stopping at a refusal.
  pub serve-append :
      (f g : ℕ) (db : Database) (c more : Bytes)
      → IsBytes (c ++ more)
      → length c < f
      → length (c ++ more) < g
      → serve hash g db (c ++ more) ≡ bind_option (serve hash f db c) (λ o. continue o more)
  unfolding serve
  serve-append zero g db c more bytes hf hg = absurd (omega arith)
  serve-append (suc f) zero db c more bytes hf hg = absurd (omega arith)
  serve-append (suc f) (suc g) db c more bytes hf hg =
      serve_read-append f g db c more (read_command c) refl bytes hf hg
        λ db' rest b' hf' hg'. serve-append f g db' rest more b' hf' hg'
