-- ===== src/Client/Start.antt =====
-- client.c: `main`.
pub mod Page
pub mod Fetched
use operating_systems_wet.Base.{ℕ, Bool, if◌then◌else◌, List, [], ◌∷◌, ◌++◌, Option, none, some}
use operating_systems_wet.Base.Int.{ℤ, pos, negsuc}
use operating_systems_wet.Base.Bytes.{codes}
use operating_systems_wet.Base.Format.{print_int}
use operating_systems_wet.Rio.Read.{Event}
use operating_systems_wet.Segel.{
  Run, returned, exited, fails, close, open_clientfd, open_clientfd_wrapper,
}
use operating_systems_wet.Server.Args.{atoi}
use operating_systems_wet.Client.{
  Sent, sent, send_exits, Printed, printed_all, print_exits, client_send, client_print,
}

-- What the calls of the operating system give the client.
pub record ClientCalls : Type 0 where
  pub socket_rc : ℤ
  pub host_found : Bool
  pub connect_rc : ℤ
  pub hostname_rc : ℤ
  pub hostname : List ℕ
  pub write_ok : Bool
  pub fd : List Event
  pub close_rc : ℤ

-- How the program ends: with its exit code, the message on the error output (which `unix_error` and
-- `dns_error` print with the reason behind it), what it has printed, and what it has sent.
pub record Ended : Type 0 where
  pub code : ℕ
  pub message : List ℕ
  pub printed : List ℕ
  pub text : List ℕ

-- `unix_error` and `dns_error` exit with the code 0.
abbrev pub ends : ℕ → List ℕ → List ℕ → List ℕ → Ended
ends code message printed text = record {
  code = code;
  message = message;
  printed = printed;
  text = text;
}

abbrev pub closed : List ℕ → List ℕ → Run ℤ → Ended
closed printed text (returned rc) = ends 0 [] printed text
closed printed text (exited kind message) = ends 0 message printed text

abbrev pub then_close : ClientCalls → List ℕ → List ℕ → Option Printed → Option Ended
then_close calls before text none = none
then_close calls before text (some (printed_all printed rp)) =
    some (closed (before ++ printed) text (close calls.close_rc))
then_close calls before text (some (print_exits printed)) =
    some (ends 0 (codes "Rio_readlineb error") (before ++ printed) text)

abbrev pub then_print : ClientCalls → List ℕ → Sent → Option Ended
then_print calls before (send_exits message printed) = some (ends 0 message (before ++ printed) [])
then_print calls before (sent printed text) =
    then_close calls (before ++ printed) text (client_print calls.fd)

abbrev pub connected_line : ℤ → List ℕ
connected_line clientfd =
    codes "Connected to server. clientfd = " ++ (print_int clientfd ++ (b'\n' ∷ []))

abbrev pub then_send : ClientCalls → List ℕ → List ℕ → List ℕ → List ℕ → Run ℤ → Option Ended
then_send calls host port filename method (exited kind message) = some (ends 0 message [] [])
then_send calls host port filename method (returned clientfd) =
    if fails clientfd
    then some (
        ends 1
          (codes "Error connecting to "
            ++ (host ++ (codes ":" ++ (print_int (atoi port) ++ (b'\n' ∷ [])))))
          [] [])
    else then_print calls (connected_line clientfd)
        (client_send calls.hostname_rc calls.hostname calls.write_ok filename method)

abbrev pub usage : List ℕ → Ended
usage name =
    ends 1
      (codes "Usage: " ++ (name ++ (codes " <host> <port> <filename> <method>" ++ (b'\n' ∷ [])))) []
      []

-- `printf` prints `(null)` for a name that is not there.
unfoldable pub client_main : ClientCalls → List (List ℕ) → Option Ended
client_main calls (name ∷ host ∷ port ∷ filename ∷ method ∷ []) =
    then_send calls host port filename method (
      open_clientfd_wrapper
        (open_clientfd calls.socket_rc calls.host_found calls.connect_rc).result)
client_main calls [] = some (usage (codes "(null)"))
client_main calls (name ∷ _) = some (usage name)
