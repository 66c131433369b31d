-- ===== src/Protocol/Binary/Sound.antt =====
-- What is read as a message is the written form of that message.
use boutique.Common.{
  ℕ, ◌≡◌, ◌↔◌, refl, sym, ◌++◌, append_assoc, Bytes, IsBytes, ◌==◌, ==_iff, true, ◌∙◌,
}
use boutique.Core.Serialize.{read_string, write_string}
use boutique.Protocol.Messages.{Command, Response}
use boutique.Protocol.Read.{success, ◌>>=◌, pure, require}
use boutique.Protocol.Read.Laws.{
  Ensures, holds, wrong, Ensures-bind, Ensures-if, Ensures-map, Ensures-success,
}
use boutique.Protocol.Binary.Schemas.Sound.{
  Written, uint_Written, string_Written, read_schema-Written,
}
use boutique.Protocol.Binary.RoundTrip.{
  FitsString, FitsCommand, FitsResponse, read_command-write_command, read_response-write_response,
}
use boutique.Protocol.Binary.{
  read_command_body, read_command, read_response_body, read_response, command_index,
  write_command_body, write_command, response_index, write_response_body, write_response,
}

-- `c` is the body of the command read, whose index is `index`, and then the bytes left.
abbrev CommandBody : ℕ → Bytes → Command → Bytes → Type 0
CommandBody index c cmd rest =
    (command_index cmd ≡ index) × Written write_command_body FitsCommand c cmd rest

abbrev ResponseBody : ℕ → Bytes → Response → Bytes → Type 0
ResponseBody index c res rest =
    (response_index res ≡ index) × Written write_response_body FitsResponse c res rest

module _ {ℓ κ} {A : Type ℓ} {P : A → Bytes → Type κ} where
  one_string_Written :
      (f : Bytes → A) (c : Bytes)
      → IsBytes c
      → ((s rest : Bytes) → Written write_string FitsString c s rest → P (f s) rest)
      → Ensures P ((require read_string >>= λ s. pure (f s)) c)
  one_string_Written f c bytes k =
      Ensures-bind (string_Written c bytes) λ s rest w. holds (k s rest w)

  two_strings_Written :
      (f : Bytes → Bytes → A) (c : Bytes)
      → IsBytes c
      → ((s t rest : Bytes)
          → c ≡ (write_string s ++ write_string t) ++ rest
          → FitsString s × FitsString t
          → IsBytes rest
          → P (f s t) rest)
      → Ensures P ((require read_string >>= λ s. require read_string >>= λ t. pure (f s t)) c)
  two_strings_Written f c bytes k = Ensures-bind (string_Written c bytes) λ s c₁ w₁.
      Ensures-bind (string_Written c₁ w₁.2)
        λ t rest w₂. holds (k s t rest (rw (append_assoc, ← w₂.0) w₁.0) (w₁.1, w₂.1) w₂.2)

is_index : (n m i : ℕ) → i ≡ m → (n == m) ≡ true → i ≡ n
is_index n m i e h = e ∙ sym ((==_iff n m).0 h)

read_command_body_Written :
    (index : ℕ) (c : Bytes) → IsBytes c → Ensures (CommandBody index c) (read_command_body index c)
unfolding read_command_body command_index write_command_body
read_command_body_Written index c bytes =
    Ensures-if (index == 1) _ _ c
      (λ e. Ensures-bind (string_Written c bytes) λ name c₁ w₁.
        Ensures-bind (read_schema-Written c₁ w₁.2) λ s rest w₂.
          holds (is_index index 1 1 refl e, (rw (append_assoc, ← w₂.0) w₁.0, (w₁.1, w₂.1), w₂.2)))
      λ _.
        Ensures-if (index == 2) _ _ c
          (λ e.
            two_strings_Written Command.create_collection c bytes
              λ s t rest w fits b. (is_index index 2 2 refl e, (w, fits, b)))
          λ _.
            Ensures-if (index == 3) _ _ c
              (λ e.
                one_string_Written Command.get_schema c bytes
                  λ s rest w. (is_index index 3 3 refl e, w))
              λ _.
                Ensures-if (index == 4) _ _ c
                  (λ e.
                    one_string_Written Command.get_collection_schema c bytes
                      λ s rest w. (is_index index 4 4 refl e, w))
                  λ _.
                    Ensures-if (index == 5) _ _ c
                      (λ e.
                        two_strings_Written Command.get c bytes
                          λ s t rest w fits b. (is_index index 5 5 refl e, (w, fits, b)))
                      λ _.
                        Ensures-if (index == 6) _ _ c
                          (λ e.
                            two_strings_Written Command.put c bytes
                              λ s t rest w fits b. (is_index index 6 6 refl e, (w, fits, b)))
                          λ _.
                            Ensures-if (index == 7) _ _ c
                              (λ e.
                                two_strings_Written Command.delete c bytes
                                  λ s t rest w fits b. (is_index index 7 7 refl e, (w, fits, b)))
                              λ _. wrong

read_command-Written :
    (c : Bytes) → IsBytes c → Ensures (Written write_command FitsCommand c) (read_command c)
unfolding read_command write_command
read_command-Written c bytes = Ensures-bind (uint_Written 1 c bytes) λ index c₁ w.
    Ensures-map (read_command_body_Written index c₁ w.2)
      λ cmd rest v. (rw (v.0, append_assoc, ← v.1.0) w.0, v.1.1, v.1.2)

read_response_body_Written :
    (index : ℕ) (c : Bytes)
    → IsBytes c
    → Ensures (ResponseBody index c) (read_response_body index c)
unfolding read_response_body response_index write_response_body
read_response_body_Written index c bytes =
    Ensures-if (index == 1) _ _ c (λ e. holds (is_index index 1 1 refl e, (refl, tt, bytes)))
      λ _.
        Ensures-if (index == 2) _ _ c (λ e. holds (is_index index 2 2 refl e, (refl, tt, bytes)))
          λ _.
            Ensures-if (index == 3) _ _ c
              (λ e. holds (is_index index 3 3 refl e, (refl, tt, bytes)))
              λ _.
                Ensures-if (index == 4) _ _ c
                  (λ e. holds (is_index index 4 4 refl e, (refl, tt, bytes)))
                  λ _.
                    Ensures-if (index == 5) _ _ c
                      (λ e.
                        one_string_Written Response.found c bytes
                          λ s rest w. (is_index index 5 5 refl e, w))
                      λ _.
                        Ensures-if (index == 6) _ _ c
                          (λ e.
                            one_string_Written Response.string c bytes
                              λ s rest w. (is_index index 6 6 refl e, w))
                          λ _.
                            Ensures-if (index == 7) _ _ c
                              (λ e.
                                Ensures-bind (read_schema-Written c bytes)
                                  λ s rest w. holds (is_index index 7 7 refl e, w))
                              λ _. wrong

read_response-Written :
    (c : Bytes) → IsBytes c → Ensures (Written write_response FitsResponse c) (read_response c)
unfolding read_response write_response
read_response-Written c bytes = Ensures-bind (uint_Written 1 c bytes) λ index c₁ w.
    Ensures-map (read_response_body_Written index c₁ w.2)
      λ res rest v. (rw (v.0, append_assoc, ← v.1.0) w.0, v.1.1, v.1.2)

-- On a buffer of bytes, a command and the rest of the buffer are read exactly when the buffer is
-- the written form of that command, with parts that fit 32 bits, followed by that rest.
pub read_command-eq-success_iff :
    (c rest : Bytes) (cmd : Command)
    → IsBytes c
    → (read_command c ≡ success cmd rest) ↔ ((c ≡ write_command cmd ++ rest) × FitsCommand cmd)
read_command-eq-success_iff c rest cmd bytes = (
  (λ e.
      let w : Written write_command FitsCommand c cmd rest =
        Ensures-success (rw e at (read_command-Written c bytes)) in
      (w.0, w.1)),
  λ h. rw h.0 (read_command-write_command cmd rest h.1),
)

-- On a buffer of bytes, a response and the rest of the buffer are read exactly when the buffer is
-- the written form of that response, with parts that fit 32 bits, followed by that rest.
pub read_response-eq-success_iff :
    (c rest : Bytes) (res : Response)
    → IsBytes c
    → (read_response c ≡ success res rest) ↔ ((c ≡ write_response res ++ rest) × FitsResponse res)
read_response-eq-success_iff c rest res bytes = (
  (λ e.
      let w : Written write_response FitsResponse c res rest =
        Ensures-success (rw e at (read_response-Written c bytes)) in
      (w.0, w.1)),
  λ h. rw h.0 (read_response-write_response res rest h.1),
)
