-- ===== src/Io/Owners/Closes.antt =====
-- Every descriptor is closed by its own object, but for those that move assignment loses.
use boutique.Common.{
  ℕ, ◌≡◌, ◌≢◌, ◌⊎◌, refl, sym, ap, ◌∙◌, Bool, true, false, inl, inr, Option, none, some, List, [],
  ◌∷◌, arith, ◌==◌, ==_iff, Bool-cases,
}
use boutique.Io.Owners.{
  Fds, write, close, adopt, move_construct, move_assign, destroy, Change, adopts, move_constructs,
  move_assigns, destroys, change, change_all,
}

-- The system opens a descriptor that is not open, and objects are constructed where none stands.
abbrev pub Allows : Fds → Change → Type 0
Allows s (adopts a fd) = (s.is_open fd ≡ false) × (s.m_fd a ≡ none)
Allows s (move_constructs a other) = (s.m_fd a ≡ none) × (a ≢ other)
Allows s _ = Unit

abbrev pub AllowAll : Fds → List Change → Type 0
AllowAll s [] = Unit
AllowAll s (x ∷ changes) = Allows s x × AllowAll (change s x) changes

-- Every object's descriptor is open and its own.
pub record IsOwned (s : Fds) : Type 0 where
  pub opened : (a fd : ℕ) → s.m_fd a ≡ some fd → s.is_open fd ≡ true
  pub own : (a b fd : ℕ) → s.m_fd a ≡ some fd → s.m_fd b ≡ some fd → a ≡ b

-- A descriptor that is open and that no object will close.
pub record IsLost (s : Fds) (fd : ℕ) : Type 0 where
  pub opened : s.is_open fd ≡ true
  pub unowned : (a : ℕ) → s.m_fd a ≢ some fd

write_cases :
    (f : ℕ → Option ℕ) (a k fd : ℕ) (v : Option ℕ)
    → write f a v k ≡ some fd
    → ((k ≡ a) × (v ≡ some fd)) ⊎ ((k ≢ a) × (f k ≡ some fd))
unfolding write
write_cases f a k fd v e = elim (Bool-cases (k == a)) [
  | inl here ↦ inl ((==_iff k a).0 here, rw here at e)
  | inr other ↦ inr (ground arith, rw other at e)
]

-- the object that had a descriptor before it was moved
record Origin (f : ℕ → Option ℕ) (a other k fd : ℕ) : Type 0 where
  from : ℕ
  had : f from ≡ some fd
  place : ((k ≡ a) × (from ≡ other)) ⊎ ((k ≢ a) × (k ≢ other) × (from ≡ k))

write-Origin :
    (f : ℕ → Option ℕ) (a other k fd : ℕ)
    → write (write f other none) a (f other) k ≡ some fd
    → Origin f a other k fd
write-Origin f a other k fd e = elim (write_cases (write f other none) a k fd (f other) e) [
  | inl (here, had) ↦ record { from = other; had = had; place = inl (here, refl) }
  | inr (ne, e') ↦ elim (write_cases f other k fd none e') [
    | inl (_, bad) ↦ cc
    | inr (ne', had) ↦ record { from = k; had = had; place = inr (ne, ne', refl) }
  ]
]

Origin-own :
    (f : ℕ → Option ℕ) (a other k k' fd : ℕ)
    → ((x y z : ℕ) → f x ≡ some z → f y ≡ some z → x ≡ y)
    → Origin f a other k fd
    → Origin f a other k' fd
    → k ≡ k'
Origin-own f a other k k' fd own o o' =
    let same = own o.from o'.from fd o.had o'.had in
    elim o.place [
      | inl (here, from) ↦ elim o'.place [
        | inl (here', from') ↦ here ∙ sym here'
        | inr (ne, ne', from') ↦ absurd (ne' (sym from' ∙ (sym same ∙ from)))
      ]
      | inr (ne, ne', from) ↦ elim o'.place [
        | inl (here', from') ↦ absurd (ne' (sym from ∙ (same ∙ from')))
        | inr (_, _, from') ↦ sym from ∙ (same ∙ from')
      ]
    ]

IsOwned-moved :
    (s : Fds) (a other : ℕ)
    → IsOwned s
    → IsOwned (record s { m_fd = write (write s.m_fd other none) a (s.m_fd other) })
IsOwned-moved s a other inv = record {
  opened = λ k fd e. let o = write-Origin s.m_fd a other k fd e in inv.opened o.from fd o.had;
  own = λ k k' fd e e'.
      Origin-own s.m_fd a other k k' fd inv.own (write-Origin s.m_fd a other k fd e)
        (write-Origin s.m_fd a other k' fd e');
}

IsOwned-adopt : (s : Fds) (a fd : ℕ) → IsOwned s → s.is_open fd ≡ false → IsOwned (adopt s a fd)
unfolding adopt
IsOwned-adopt s a fd inv unused = record {
  opened = λ k x e. elim (Bool-cases (x == fd)) [
    | inl new ↦ rw new
    | inr old ↦ rw old (elim (write_cases s.m_fd a k x (some fd) e) [
      | inl (_, same) ↦ let e_x : fd ≡ x = cc in absurd (ground arith)
      | inr (_, had) ↦ inv.opened k x had
    ])
  ];
  own = λ k k' x e e'. elim (write_cases s.m_fd a k x (some fd) e) [
    | inl (here, same) ↦ elim (write_cases s.m_fd a k' x (some fd) e') [
      | inl (here', same') ↦ here ∙ sym here'
      | inr (_, had) ↦
          let e_x : fd ≡ x = cc in let bad = inv.opened k' x had in cc (unused, e_x, bad)
    ]
    | inr (_, had) ↦ elim (write_cases s.m_fd a k' x (some fd) e') [
      | inl (here', same') ↦
          let e_x : fd ≡ x = cc in let bad = inv.opened k x had in cc (unused, e_x, bad)
      | inr (_, had') ↦ inv.own k k' x had had'
    ]
  ];
}

close_other :
    (is_open : ℕ → Bool) (v : Option ℕ) (x : ℕ) → v ≢ some x → close is_open v x ≡ is_open x
unfolding close
close_other is_open none x ne = refl
close_other is_open (some fd) x ne = elim (Bool-cases (x == fd)) [
  | inl same ↦ absurd (ne (ap some (sym ((==_iff x fd).0 same))))
  | inr other ↦ rw other
]

IsOwned-destroy : (s : Fds) (a : ℕ) → IsOwned s → IsOwned (destroy s a)
unfolding destroy close
IsOwned-destroy s a inv = record {
  opened = λ k x e. elim (write_cases s.m_fd a k x none e) [
    | inl (_, bad) ↦ cc
    | inr (ne, had) ↦
        close_other s.is_open (s.m_fd a) x (λ e'. ne (inv.own k a x had e')) ∙ inv.opened k x had
  ];
  own = λ k k' x e e'. elim (write_cases s.m_fd a k x none e) [
    | inl (_, bad) ↦ cc
    | inr (_, had) ↦ elim (write_cases s.m_fd a k' x none e') [
      | inl (_, bad) ↦ cc
      | inr (_, had') ↦ inv.own k k' x had had'
    ]
  ];
}

IsOwned-change : (s : Fds) (x : Change) → IsOwned s → Allows s x → IsOwned (change s x)
unfolding change move_construct move_assign
IsOwned-change s (adopts a fd) inv ok = IsOwned-adopt s a fd inv ok.0
IsOwned-change s (move_constructs a other) inv ok = IsOwned-moved s a other inv
IsOwned-change s (move_assigns a other) inv ok = IsOwned-moved s a other inv
IsOwned-change s (destroys a) inv ok = IsOwned-destroy s a inv

-- From a state in which every object's descriptor is open and its own, it stays so in every sequence of
-- constructions, assignments and destructions: a destructor closes a descriptor that is open and that no
-- other object will close. The system opens descriptors that are not open, and objects are constructed
-- where none stands.
pub IsOwned-change_all :
    (s : Fds) (changes : List Change)
    → IsOwned s
    → AllowAll s changes
    → IsOwned (change_all s changes)
unfolding change_all
IsOwned-change_all s [] inv ok = inv
IsOwned-change_all s (x ∷ changes) inv (ok, later) =
    IsOwned-change_all (change s x) changes (IsOwned-change s x inv ok) later

IsLost-moved :
    (s : Fds) (fd a other : ℕ)
    → IsLost s fd
    → IsLost (record s { m_fd = write (write s.m_fd other none) a (s.m_fd other) }) fd
IsLost-moved s fd a other lost = record {
  opened = lost.opened;
  unowned = λ k e. let o = write-Origin s.m_fd a other k fd e in lost.unowned o.from o.had;
}

IsLost-change : (s : Fds) (fd : ℕ) (x : Change) → Allows s x → IsLost s fd → IsLost (change s x) fd
unfolding change adopt move_construct move_assign destroy
IsLost-change s fd (adopts a fd') ok lost = record {
  opened = elim (Bool-cases (fd == fd')) [ inl same ↦ rw same | inr other ↦ rw other lost.opened ];
  unowned = λ k e. elim (write_cases s.m_fd a k fd (some fd') e) [
    | inl (_, same) ↦ let e_fd : fd' ≡ fd = cc in let open' = lost.opened in cc (ok.0, e_fd, open')
    | inr (_, had) ↦ lost.unowned k had
  ];
}
IsLost-change s fd (move_constructs a other) ok lost = IsLost-moved s fd a other lost
IsLost-change s fd (move_assigns a other) ok lost = IsLost-moved s fd a other lost
IsLost-change s fd (destroys a) ok lost = record {
  opened = close_other s.is_open (s.m_fd a) fd (lost.unowned a) ∙ lost.opened;
  unowned = λ k e. elim (write_cases s.m_fd a k fd none e) [
    | inl (_, bad) ↦ cc
    | inr (_, had) ↦ lost.unowned k had
  ];
}

IsLost-change_all :
    (s : Fds) (fd : ℕ) (changes : List Change)
    → AllowAll s changes
    → IsLost s fd
    → IsLost (change_all s changes) fd
unfolding change_all
IsLost-change_all s fd [] ok lost = lost
IsLost-change_all s fd (x ∷ changes) (ok, later) lost =
    IsLost-change_all (change s x) fd changes later (IsLost-change s fd x ok lost)

move_assign-IsLost :
    (s : Fds) (a other fd : ℕ)
    → IsOwned s
    → a ≢ other
    → s.m_fd a ≡ some fd
    → IsLost (move_assign s a other) fd
unfolding move_assign
move_assign-IsLost s a other fd inv ne had = record {
  opened = inv.opened a fd had;
  unowned = λ k e.
      let o = write-Origin s.m_fd a other k fd e in
      let same = inv.own o.from a fd o.had had in
      elim o.place [
        | inl (_, from) ↦ ne (sym same ∙ from)
        | inr (ne_k, _, from) ↦ ne_k (sym from ∙ same)
      ];
}

-- Move assignment to an object that has a descriptor, from another one, loses it: the descriptor stays
-- open and no object has it, whatever is constructed, assigned and destroyed afterwards.
pub move_assign-change_all :
    (s : Fds) (a other fd : ℕ) (changes : List Change)
    → IsOwned s
    → a ≢ other
    → s.m_fd a ≡ some fd
    → AllowAll (move_assign s a other) changes
    → IsLost (change_all (move_assign s a other) changes) fd
move_assign-change_all s a other fd changes inv ne had ok =
    IsLost-change_all (move_assign s a other) fd changes ok
      (move_assign-IsLost s a other fd inv ne had)
