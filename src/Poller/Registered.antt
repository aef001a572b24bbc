-- ===== src/Poller/Registered.antt =====
-- net/EPollPoller.cc: the kernel's view of a channel agrees with the poller's.
use my_game_server.Base.{
  Bool, true, false, List, [], ◌∷◌, ◌++◌, Option, none, some, ◌≡◌, refl, ◌∙◌, ap, Option-cases, inl,
  inr,
}
use my_game_server.Poller.{
  Events, Index, is_new, is_added, is_deleted, Ctl, ctl_add, ctl_mod, ctl_del, Channel, fresh,
  is_none_event, change_channel, update_at, update_channel, remove_at, remove_channel,
  enable_reading, enable_writing, disable_writing, disable_all, Op, enables_reading,
  enables_writing, disables_writing, disables_all, removes, step, run,
}

-- What the calls do to the entry of a descriptor in the interest list of the kernel, as epoll_ctl(2)
-- documents it: the outer `none` stands for EEXIST or ENOENT.
abbrev pub entry_after : Ctl → Option Events → Option (Option Events)
entry_after (ctl_add e) none = some (some e)
entry_after (ctl_add e) (some old) = none
entry_after (ctl_mod e) none = none
entry_after (ctl_mod e) (some old) = some (some e)
entry_after (ctl_del e) none = none
entry_after (ctl_del e) (some old) = some none

abbrev pub then_calls :
    Option (Option Events) → (Option Events → Option (Option Events)) → Option (Option Events)
then_calls none k = none
then_calls (some r) k = k r

unfoldable pub replay : List Ctl → Option Events → Option (Option Events)
replay [] r = some r
replay (c ∷ cs) r = then_calls (entry_after c r) (replay cs)

replay-append :
    (cs ds : List Ctl) (r : Option Events)
    → replay (cs ++ ds) r ≡ then_calls (replay cs r) (replay ds)
unfolding replay
replay-append [] ds r = refl
replay-append (c ∷ cs) ds r = elim (Option-cases (entry_after c r)) [
  | inl fails ↦ rw fails refl
  | inr (s, e) ↦ rw e (replay-append cs ds s)
]

-- The entry that the kernel should have.
abbrev pub wanted : Index → Events → Option Events
wanted is_new e = none
wanted is_added e = some e
wanted is_deleted e = none

-- Whether `channels_` should have the channel.
abbrev pub should_list : Index → Bool
should_list is_new = false
should_list is_added = true
should_list is_deleted = true

pub record InStep (ch : Channel) : Type 0 where
  pub agrees : replay ch.calls none ≡ some (wanted ch.index ch.events)
  pub kept : ch.listed ≡ should_list ch.index

one_more :
    (cs : List Ctl) (c : Ctl) (r : Option Events) (s : Option (Option Events))
    → replay cs none ≡ some r
    → entry_after c r ≡ s
    → replay (cs ++ (c ∷ [])) none ≡ then_calls s some
unfolding replay
one_more cs c r s e d =
    replay-append cs (c ∷ []) none
    ∙ (ap (λ o. then_calls o (replay (c ∷ []))) e ∙ ap (λ o. then_calls o some) d)

change-InStep :
    (b l : Bool) (e old : Events) (cs : List Ctl)
    → replay cs none ≡ some (some old)
    → l ≡ true
    → InStep (change_channel b (record { events = e; index = is_added; listed = l; calls = cs }))
change-InStep true l e old cs a k = record {
  agrees = one_more cs (ctl_del e) (some old) (some none) a refl;
  kept = k;
}
change-InStep false l e old cs a k = record {
  agrees = one_more cs (ctl_mod e) (some old) (some (some e)) a refl;
  kept = k;
}

-- `events_` was changed, and `update` follows.
update_at-InStep :
    (i : Index) (l : Bool) (e old : Events) (cs : List Ctl)
    → replay cs none ≡ some (wanted i old)
    → l ≡ should_list i
    → InStep (update_at i (record { events = e; index = i; listed = l; calls = cs }))
update_at-InStep is_new l e old cs a k = record {
  agrees = one_more cs (ctl_add e) none (some (some e)) a refl;
  kept = refl;
}
update_at-InStep is_deleted l e old cs a k = record {
  agrees = one_more cs (ctl_add e) none (some (some e)) a refl;
  kept = refl;
}
update_at-InStep is_added l e old cs a k = change-InStep (is_none_event e) l e old cs a k

remove-InStep :
    (i : Index) (l : Bool) (e : Events) (cs : List Ctl)
    → replay cs none ≡ some (wanted i e)
    → InStep (record (remove_at i (record { events = e; index = i; listed = false; calls = cs })) {
      index = is_new;
    })
remove-InStep is_new l e cs a = record { agrees = a; kept = refl }
remove-InStep is_deleted l e cs a = record { agrees = a; kept = refl }
remove-InStep is_added l e cs a = record {
  agrees = one_more cs (ctl_del e) (some e) (some none) a refl;
  kept = refl;
}

step-InStep : (o : Op) (ch : Channel) → InStep ch → InStep (step o ch)
unfolding step enable_reading enable_writing disable_writing disable_all update_channel
    remove_channel
step-InStep enables_reading ch v =
    update_at-InStep ch.index ch.listed _ ch.events ch.calls v.agrees v.kept
step-InStep enables_writing ch v =
    update_at-InStep ch.index ch.listed _ ch.events ch.calls v.agrees v.kept
step-InStep disables_writing ch v =
    update_at-InStep ch.index ch.listed _ ch.events ch.calls v.agrees v.kept
step-InStep disables_all ch v =
    update_at-InStep ch.index ch.listed _ ch.events ch.calls v.agrees v.kept
step-InStep removes ch v = remove-InStep ch.index ch.listed ch.events ch.calls v.agrees

run-InStep : (os : List Op) (ch : Channel) → InStep ch → InStep (run os ch)
unfolding run
run-InStep [] ch v = v
run-InStep (o ∷ os) ch v = run-InStep os (step o ch) (step-InStep o ch v)

-- However a channel enables and disables its events and is removed, none of the calls of `epoll_ctl`
-- fails by what its manual documents, EEXIST or ENOENT; the kernel has an entry for the channel, with its
-- current events, exactly if its index is `kAdded`, and `channels_` has the channel exactly if its index
-- is not `kNew`.
pub run-fresh-InStep : (os : List Op) → InStep (run os fresh)
unfolding replay
run-fresh-InStep os = run-InStep os fresh (record { agrees = refl; kept = refl })
