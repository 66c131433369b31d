-- ===== src/Io/Owners.antt =====
-- Who closes a descriptor: the constructors, the assignment and the destructor of Socket in
-- io/socket.cpp, which those of Timer in io/timer.cpp repeat. An object is known by its address; -1 is
-- `none`, also where no object stands.
pub mod Closes
use boutique.Common.{
  ℕ, ◌≡◌, ◌≢◌, ◌⊎◌, refl, sym, ap, ◌∙◌, Bool, true, false, inl, inr, Option, none, some, List, [],
  ◌∷◌, arith, ◌==◌, ==_iff, if◌then◌else◌, Bool-cases,
}

-- The system's table of descriptors, and the m_fd of the objects.
pub record Fds : Type 0 where
  pub is_open : ℕ → Bool
  pub m_fd : ℕ → Option ℕ

unfoldable pub write : (ℕ → Option ℕ) → ℕ → Option ℕ → ℕ → Option ℕ
write m_fd a v k = if k == a then v else m_fd k

-- close(fd)
unfoldable pub close : (ℕ → Bool) → Option ℕ → ℕ → Bool
close is_open none k = is_open k
close is_open (some fd) k = if k == fd then false else is_open k

-- a descriptor that the system opens, and Socket(int fd) with it
unfoldable pub adopt : Fds → ℕ → ℕ → Fds
unfolding write
adopt s a fd = record {
  is_open = λ k. if k == fd then true else s.is_open k;
  m_fd = write s.m_fd a (some fd);
}

-- Socket(Socket&& other)
unfoldable pub move_construct : Fds → ℕ → ℕ → Fds
unfolding write
move_construct s a other = record s { m_fd = write (write s.m_fd other none) a (s.m_fd other) }

-- operator=(Socket&& other)
unfoldable pub move_assign : Fds → ℕ → ℕ → Fds
unfolding write
move_assign s a other = record s { m_fd = write (write s.m_fd other none) a (s.m_fd other) }

-- ~Socket()
unfoldable pub destroy : Fds → ℕ → Fds
unfolding write close
destroy s a = record { is_open = close s.is_open (s.m_fd a); m_fd = write s.m_fd a none }

pub data Change : Type 0 where
  adopts : (a fd : ℕ) → Change
  move_constructs : (a other : ℕ) → Change
  move_assigns : (a other : ℕ) → Change
  destroys : (a : ℕ) → Change

unfoldable pub change : Fds → Change → Fds
unfolding adopt move_construct move_assign destroy
change s (adopts a fd) = adopt s a fd
change s (move_constructs a other) = move_construct s a other
change s (move_assigns a other) = move_assign s a other
change s (destroys a) = destroy s a

unfoldable pub change_all : Fds → List Change → Fds
unfolding change
change_all s [] = s
change_all s (x ∷ changes) = change_all (change s x) changes
