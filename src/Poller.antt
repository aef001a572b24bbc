-- ===== src/Poller.antt =====
-- net/Channel.h, net/Channel.cc, net/EPollPoller.h and net/EPollPoller.cc: what a channel wants to hear
-- of, and how the poller keeps the kernel informed. A channel is modelled with the entry that its poller
-- keeps for it. The calls of `epoll_ctl` are written down in `calls`, in order; the flags of `events_`
-- are only ever set and reset in the two groups below.
pub mod Registered
pub mod Poll
mod Tests
use my_game_server.Base.{ℕ, if◌then◌else◌, Bool, true, false, not, ◌&&◌, ◌||◌, List, [], ◌∷◌, ◌++◌}

-- `reading` stands for EPOLLIN, EPOLLPRI and EPOLLET, `writing` for EPOLLOUT.
pub record Events : Type 0 where
  pub reading : Bool
  pub writing : Bool

-- `kNew`, `kAdded` and `kDeleted`.
pub data Index : Type 0 where
  is_new is_added is_deleted : Index

-- The calls of `epoll_ctl`, with the events that are passed.
pub data Ctl : Type 0 where
  ctl_add ctl_mod ctl_del : Events → Ctl

-- `listed` is whether `channels_` has the channel.
pub record Channel : Type 0 where
  pub events : Events
  pub index : Index
  pub listed : Bool
  pub calls : List Ctl

abbrev pub fresh : Channel
fresh = record {
  events = record { reading = false; writing = false };
  index = is_new;
  listed = false;
  calls = [];
}

abbrev pub is_none_event : Events → Bool
is_none_event e = not e.reading && not e.writing

abbrev pub call : Ctl → Channel → Channel
call c ch = record ch { calls = ch.calls ++ (c ∷ []) }

abbrev pub add_channel : Channel → Channel
add_channel ch = call (ctl_add ch.events) (record ch { listed = true; index = is_added })

abbrev pub change_channel : Bool → Channel → Channel
change_channel true ch = record (call (ctl_del ch.events) ch) { index = is_deleted }
change_channel false ch = call (ctl_mod ch.events) ch

abbrev pub update_at : Index → Channel → Channel
update_at is_new ch = add_channel ch
update_at is_deleted ch = add_channel ch
update_at is_added ch = change_channel (is_none_event ch.events) ch

-- `EPollPoller::updateChannel`.
unfoldable pub update_channel : Channel → Channel
update_channel ch = update_at ch.index ch

abbrev pub remove_at : Index → Channel → Channel
remove_at is_added ch = call (ctl_del ch.events) ch
remove_at is_new ch = ch
remove_at is_deleted ch = ch

-- `EPollPoller::removeChannel`.
unfoldable pub remove_channel : Channel → Channel
remove_channel ch = record (remove_at ch.index (record ch { listed = false })) { index = is_new }

unfoldable pub enable_reading : Channel → Channel
enable_reading ch =
    update_channel (record ch { events = record { reading = true; writing = ch.events.writing } })

unfoldable pub enable_writing : Channel → Channel
enable_writing ch =
    update_channel (record ch { events = record { reading = ch.events.reading; writing = true } })

unfoldable pub disable_writing : Channel → Channel
disable_writing ch =
    update_channel (record ch { events = record { reading = ch.events.reading; writing = false } })

unfoldable pub disable_all : Channel → Channel
disable_all ch = update_channel (record ch { events = record { reading = false; writing = false } })

abbrev pub is_writing : Channel → Bool
is_writing ch = ch.events.writing

-- What `epoll_wait` reports.
pub record Revents : Type 0 where
  pub hup : Bool
  pub err : Bool
  pub can_read : Bool
  pub pri : Bool
  pub rdhup : Bool
  pub can_write : Bool

pub data Callback : Type 0 where
  closes errs reads writes : Callback

-- The callbacks that are set.
abbrev pub call_if : Bool → Callback → (Callback → Bool) → List Callback
call_if b c is_set = if b && is_set c then c ∷ [] else []

-- `Channel::handleEvent`: the callbacks that it calls, in order.
unfoldable pub handle_event : Revents → (Callback → Bool) → List Callback
handle_event r is_set =
    if r.hup && not r.can_read
    then call_if true closes is_set
    else call_if r.err errs is_set
      ++ (call_if (r.can_read || (r.pri || r.rdhup)) reads is_set
          ++ call_if r.can_write writes is_set)

pub data Op : Type 0 where
  enables_reading enables_writing disables_writing disables_all removes : Op

unfoldable pub step : Op → Channel → Channel
step enables_reading ch = enable_reading ch
step enables_writing ch = enable_writing ch
step disables_writing ch = disable_writing ch
step disables_all ch = disable_all ch
step removes ch = remove_channel ch

unfoldable pub run : List Op → Channel → Channel
run [] ch = ch
run (o ∷ os) ch = run os (step o ch)
