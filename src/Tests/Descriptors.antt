-- ===== src/Tests/Descriptors.antt =====
-- Sockets that are moved, and the settings of a timer.
use boutique.Common.{◌<◌, ◌≡◌, refl, arith, false, none, List, [], ◌∷◌}
use boutique.Io.Owners.{
  Fds, Change, adopts, destroys, adopt, move_assign, change, change_all, write,
}
use boutique.Io.Owners.Closes.{
  IsOwned, IsLost, AllowAll, IsOwned-change_all, move_assign-change_all,
}
use boutique.Io.Setup.{to_timespec, time_until_expiry, time_until_expiry-to_timespec}

abbrev no_fds : Fds
no_fds = record { is_open = λ k. false; m_fd = λ k. none }

no_fds-IsOwned : IsOwned no_fds
no_fds-IsOwned = record { opened = λ a fd e. cc; own = λ a b fd e e'. cc }

-- two sockets, and the second one assigned to the first
abbrev two_sockets : List Change
two_sockets = adopts 0 3 ∷ adopts 1 4 ∷ []

two_sockets-AllowAll : AllowAll no_fds two_sockets
unfolding change adopt write
two_sockets-AllowAll = ((refl, refl), ((refl, refl), tt))

IsOwned-change_all_example : IsOwned (change_all no_fds two_sockets)
IsOwned-change_all_example =
    IsOwned-change_all no_fds two_sockets no_fds-IsOwned two_sockets-AllowAll

both_open : IsOwned (change_all no_fds two_sockets)
both_open = IsOwned-change_all no_fds two_sockets no_fds-IsOwned two_sockets-AllowAll

-- 3 stays open when both objects are gone
move_assign-change_all_example :
    IsLost
      (change_all (move_assign (change_all no_fds two_sockets) 0 1) (destroys 0 ∷ destroys 1 ∷ []))
      3
unfolding change_all change adopt write
move_assign-change_all_example =
    move_assign-change_all (change_all no_fds two_sockets) 0 1 3 (destroys 0 ∷ destroys 1 ∷ [])
      both_open (λ e. omega (arith, e)) refl (tt, (tt, tt))

time_until_expiry-to_timespec_example :
    (time_until_expiry (to_timespec 2500000000) ≡ 2500000000)
    × ((to_timespec 2500000000).tv_nsec < 1000000000)
time_until_expiry-to_timespec_example = time_until_expiry-to_timespec 2500000000
