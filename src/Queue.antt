-- ===== src/Queue.antt =====
-- src/queue.c, over epoll, whose calls are a parameter: what each is given, and what it returns.
use kitserv.Prelude.{ℕ, ◌==◌, Bool, true, false, not, Option, List, if◌then◌else◌, bit_and, bit_or}
use kitserv.Client.{Rc}

-- `struct epoll_event`; the pointer of `data` is a number.
pub record EpollEvent : Type 0 where
  pub events : ℕ
  pub data_ptr : ℕ

-- EPOLL_CTL_ADD, EPOLL_CTL_MOD and EPOLL_CTL_DEL, with the event that the first two are given.
pub data Control : Type 0 where
  ctl_add ctl_mod : EpollEvent → Control
  ctl_del : Control

pub record Epoll : Type 0 where
  pub epoll_create1 : Option ℕ
  -- at most `n` events, of the queue
  pub epoll_wait : ℕ → ℕ → Option (List EpollEvent)
  -- whether it succeeds, for the queue and the descriptor
  pub epoll_ctl : ℕ → ℕ → Control → Bool

-- `queue_wait_cond`
abbrev pub queue_in : ℕ
queue_in = 1

abbrev pub queue_out : ℕ
queue_out = 2

-- The flags of Linux.
abbrev pub epollin : ℕ
epollin = 1

abbrev pub epollout : ℕ
epollout = 4

abbrev pub epollexclusive : ℕ
epollexclusive = 268435456

abbrev pub epollet : ℕ
epollet = 2147483648

-- `kitserv_queue_init`
abbrev pub init : Epoll → Option ℕ
init ep = ep.epoll_create1

-- `kitserv_queue_wait`, which does not wait for a limited time; `none` is -1.
abbrev pub wait : Epoll → ℕ → ℕ → Option (List EpollEvent)
wait ep qfd n = ep.epoll_wait qfd n

abbrev with_bit : Bool → ℕ → ℕ → ℕ
with_bit b flag flags = if b then bit_or flags flag else flags

-- The event that is added or armed again, with its `if`s in order.
unfoldable pub event_for : ℕ → ℕ → Bool → EpollEvent
event_for ptr type shared =
    let first = if shared then epollexclusive else epollet in
    let second = with_bit (not (bit_and type queue_in == 0)) epollin first in
    record { events = with_bit (not (bit_and type queue_out == 0)) epollout second; data_ptr = ptr }

abbrev returned : Bool → Rc
returned true = Rc.ok
returned false = Rc.fail

-- `kitserv_queue_add`
unfoldable pub add : Epoll → ℕ → ℕ → ℕ → ℕ → Bool → Rc
unfolding event_for
add ep qfd fd ptr type shared =
    returned (ep.epoll_ctl qfd fd (Control.ctl_add (event_for ptr type shared)))

-- `kitserv_queue_rearm`
unfoldable pub rearm : Epoll → ℕ → ℕ → ℕ → ℕ → Bool → Rc
unfolding event_for
rearm ep qfd fd ptr type shared =
    returned (ep.epoll_ctl qfd fd (Control.ctl_mod (event_for ptr type shared)))

-- `kitserv_queue_remove`
unfoldable pub remove : Epoll → ℕ → ℕ → Rc
remove ep qfd fd = returned (ep.epoll_ctl qfd fd Control.ctl_del)

-- `kitserv_queue_event_to_data`
abbrev pub event_to_data : EpollEvent → ℕ
event_to_data event = event.data_ptr
