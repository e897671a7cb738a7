-- ===== src/Segel.antt =====
-- segel.c: the wrappers of system calls, which exit on an error, and the client and server helpers.
pub mod Checks
use operating_systems_wet.Base.{
  ℕ, zero, suc, Bool, true, false, if◌then◌else◌, List, [], ◌∷◌, ◌++◌, Option, none, some,
}
use operating_systems_wet.Base.Int.{ℤ, pos, negsuc}
use operating_systems_wet.Base.Bytes.{codes}

-- The four error functions print a message and call `exit(0)`. Which function it was tells what stands
-- behind the message: `strerror(errno)`, `strerror(code)`, `h_errno`, or nothing.
pub data ErrorKind : Type 0 where
  unix : ErrorKind
  posix : (code : ℤ) → ErrorKind
  dns : ErrorKind
  app : ErrorKind

pub data Run (A : Type 0) : Type 0 where
  returned : A → Run A
  exited : ErrorKind → List ℕ → Run A

abbrev pub unix_error : {A : Type 0} → List ℕ → Run A
unix_error msg = exited unix msg

abbrev pub posix_error : {A : Type 0} → ℤ → List ℕ → Run A
posix_error code msg = exited (posix code) msg

abbrev pub dns_error : {A : Type 0} → List ℕ → Run A
dns_error msg = exited dns msg

abbrev pub app_error : {A : Type 0} → List ℕ → Run A
app_error msg = exited app msg

-- `if ((rc = …) < 0) { unix_error(msg); } return rc;`
abbrev pub checked : List ℕ → ℤ → Run ℤ
checked msg (pos n) = returned (pos n)
checked msg (negsuc n) = unix_error msg

-- The wrappers, each a function of what its system call returned. One that returns nothing in the
-- source returns the result here, which is not negative.
abbrev pub gethostname : ℤ → Run ℤ
gethostname rc = checked (codes "Setenv error") rc

abbrev pub setenv : ℤ → Run ℤ
setenv rc = checked (codes "Setenv error") rc

abbrev pub fork : ℤ → Run ℤ
fork rc = checked (codes "Fork error") rc

-- It returns only from a failing `execve`, and then exits.
abbrev pub execve : ℤ → Run ℤ
execve rc = checked (codes "Execve error") rc

abbrev pub wait : ℤ → Run ℤ
wait rc = checked (codes "Wait error") rc

abbrev pub wait_pid : ℤ → Run ℤ
wait_pid rc = checked (codes "Wait error") rc

abbrev pub open_file : ℤ → Run ℤ
open_file rc = checked (codes "Open error") rc

abbrev pub read : ℤ → Run ℤ
read rc = checked (codes "Read error") rc

abbrev pub write : ℤ → Run ℤ
write rc = checked (codes "Write error") rc

abbrev pub lseek : ℤ → Run ℤ
lseek rc = checked (codes "Lseek error") rc

abbrev pub close : ℤ → Run ℤ
close rc = checked (codes "Close error") rc

abbrev pub select : ℤ → Run ℤ
select rc = checked (codes "Select error") rc

abbrev pub dup2 : ℤ → Run ℤ
dup2 rc = checked (codes "Dup2 error") rc

abbrev pub stat : ℤ → Run ℤ
stat rc = checked (codes "Stat error") rc

abbrev pub fstat : ℤ → Run ℤ
fstat rc = checked (codes "Fstat error") rc

abbrev pub munmap : ℤ → Run ℤ
munmap rc = checked (codes "munmap error") rc

abbrev pub socket : ℤ → Run ℤ
socket rc = checked (codes "Socket error") rc

abbrev pub setsockopt : ℤ → Run ℤ
setsockopt rc = checked (codes "Setsockopt error") rc

abbrev pub bind : ℤ → Run ℤ
bind rc = checked (codes "Bind error") rc

abbrev pub listen : ℤ → Run ℤ
listen rc = checked (codes "Listen error") rc

abbrev pub accept : ℤ → Run ℤ
accept rc = checked (codes "Accept error") rc

abbrev pub connect : ℤ → Run ℤ
connect rc = checked (codes "Connect error") rc

-- A pointer that a call returned: `none` is NULL, or MAP_FAILED for `mmap`.
abbrev pub checked_pointer : {A : Type 0} → Run A → Option A → Run A
checked_pointer failure none = failure
checked_pointer failure (some p) = returned p

abbrev pub mmap : {A : Type 0} → Option A → Run A
mmap p = checked_pointer (unix_error (codes "mmap error")) p

abbrev pub gethostbyname : {A : Type 0} → Option A → Run A
gethostbyname p = checked_pointer (dns_error (codes "Gethostbyname error")) p

abbrev pub gethostbyaddr : {A : Type 0} → Option A → Run A
gethostbyaddr p = checked_pointer (dns_error (codes "Gethostbyaddr error")) p

abbrev pub malloc : {A : Type 0} → Option A → Run A
malloc p = checked_pointer (unix_error (codes "Malloc error")) p

-- A call of `open_clientfd` or `open_listenfd`: its result, the socket that it leaves open, and what it
-- prints on the standard error.
pub record Opened : Type 0 where
  pub result : ℤ
  pub left_open : Option ℤ
  pub on_stderr : List ℕ

abbrev pub minus_one : ℤ
minus_one = negsuc 0

abbrev pub minus_two : ℤ
minus_two = negsuc 1

abbrev pub fails : ℤ → Bool
fails (pos n) = false
fails (negsuc n) = true

-- The results of `socket` and `connect`, and whether `gethostbyname` finds the host.
unfoldable pub open_clientfd : ℤ → Bool → ℤ → Opened
open_clientfd clientfd host_found connect_rc =
    if fails clientfd
    then record { result = minus_one; left_open = none; on_stderr = [] }
    else if host_found
    then (if fails connect_rc
        then record { result = minus_one; left_open = some clientfd; on_stderr = [] }
        else record { result = clientfd; left_open = some clientfd; on_stderr = [] })
    else record { result = minus_two; left_open = some clientfd; on_stderr = [] }

-- The results of `socket`, `setsockopt`, `bind` and `listen`.
unfoldable pub open_listenfd : ℤ → ℤ → ℤ → ℤ → Opened
open_listenfd listenfd setsockopt_rc bind_rc listen_rc =
    if fails listenfd
    then record {
      result = minus_one;
      left_open = none;
      on_stderr = codes "socket failed" ++ (b'\n' ∷ []);
    }
    else if fails setsockopt_rc
    then record {
      result = minus_one;
      left_open = some listenfd;
      on_stderr = codes "setsockopt failed" ++ (b'\n' ∷ []);
    }
    else if fails bind_rc
    then record {
      result = minus_one;
      left_open = some listenfd;
      on_stderr = codes "bind failed" ++ (b'\n' ∷ []);
    }
    else if fails listen_rc
    then record {
      result = minus_one;
      left_open = some listenfd;
      on_stderr = codes "listen failed" ++ (b'\n' ∷ []);
    }
    else record { result = listenfd; left_open = some listenfd; on_stderr = [] }

-- The wrappers of these two.
abbrev pub open_clientfd_wrapper : ℤ → Run ℤ
open_clientfd_wrapper (pos fd) = returned (pos fd)
open_clientfd_wrapper (negsuc zero) = unix_error (codes "Open_clientfd Unix error")
open_clientfd_wrapper (negsuc (suc n)) = dns_error (codes "Open_clientfd DNS error")

abbrev pub open_listenfd_wrapper : ℤ → Run ℤ
open_listenfd_wrapper rc = checked (codes "Open_listenfd error") rc
