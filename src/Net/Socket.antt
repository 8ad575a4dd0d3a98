-- ===== src/Net/Socket.antt =====
-- csocket (lars_reactor/src/socket.cc). What the kernel answers is an argument.
pub mod Flags
use lars_study.Prelude.{
  ◌+◌, ◌%◌, ◌/◌, ◌==◌, ℤ, pos, ltb_ℤ, ℕ, Bool, true, false, if◌then◌else◌, Option, none, some,
  Outcome, ok, stop, exit_failure,
}

-- `errno` after accept4.
pub data Errno : Type 0 where
  eagain econnaborted eintr eproto eperm emfile : Errno
  ebadf efault einval enfile enobufs enomem enotsock eopnotsupp : Errno
  unknown : ℕ → Errno

-- A descriptor, or an error; `left` is what `errno` holds once the messages about the error are printed.
pub data Accept4 : Type 0 where
  connection : ℕ → Accept4
  refused : (error left : Errno) → Accept4

-- What csocket::accept returns: a descriptor, or a negative number with `errno`.
pub data AcceptResult : Type 0 where
  accepted : ℕ → AcceptResult
  failed : Errno → AcceptResult

-- The cases of the switch that put `errno` back.
unfoldable pub is_expected : Errno → Bool
is_expected eagain = true
is_expected econnaborted = true
is_expected eintr = true
is_expected eproto = true
is_expected eperm = true
is_expected emfile = true
is_expected _ = false

-- csocket::accept
unfoldable pub accept : Accept4 → AcceptResult
unfolding is_expected
accept (connection connfd) = accepted connfd
accept (refused error left) = if is_expected error then failed error else failed left

-- csocket::create_socket: the descriptor that `socket` answers, or none for a negative number.
unfoldable pub create_socket : Option ℕ → Outcome ℕ
create_socket none = stop exit_failure
create_socket (some sockfd) = ok sockfd

-- csocket::bind and csocket::listen, where the call takes it or not; and what follows.
unfoldable pub bind : {A : Type 0} → Bool → Outcome A → Outcome A
bind taken next = if taken then next else stop exit_failure

unfoldable pub listen : {A : Type 0} → Bool → Outcome A → Outcome A
listen taken next = if taken then next else stop exit_failure

-- csocket::~csocket: the descriptor that is closed, if any.
unfoldable pub destroyed : ℤ → Option ℤ
destroyed m_fd = if ltb_ℤ (pos 0) m_fd then some m_fd else none

-- What the kernel holds of an open socket: its status flags and its options.
pub record Options : Type 0 where
  pub flags : ℕ
  pub reuse_addr : Bool
  pub reuse_port : Bool
  pub nodelay : Bool
  pub keepalive : Bool

-- `O_NONBLOCK|flag`
abbrev pub o_nonblock : ℕ
o_nonblock = 2048

abbrev or_nonblock : ℕ → ℕ
or_nonblock flag = if flag / o_nonblock % 2 == 1 then flag else flag + o_nonblock

-- csocket::set_nonblocking, where `fcntl` reads and sets the flags or fails to.
pub set_nonblocking : Bool → Bool → Options → Options
set_nonblocking read_flag set_flag o =
    if read_flag then if set_flag then record o { flags = or_nonblock o.flags } else o else o

-- csocket::set_reuse_addr, set_reuse_port, set_nodelay and set_keepalive. The first argument is
-- whether `setsockopt` takes it, which the source does not look at.
pub set_reuse_addr : Bool → Bool → Options → Options
set_reuse_addr taken on o = if taken then record o { reuse_addr = on } else o

pub set_reuse_port : Bool → Bool → Options → Options
set_reuse_port taken on o = if taken then record o { reuse_port = on } else o

pub set_nodelay : Bool → Bool → Options → Options
set_nodelay taken on o = if taken then record o { nodelay = on } else o

pub set_keepalive : Bool → Bool → Options → Options
set_keepalive taken on o = if taken then record o { keepalive = on } else o
