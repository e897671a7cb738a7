-- ===== src/Client/Total.antt =====
-- `clientPrint` comes to an end.
use operating_systems_wet.Base.{
  ℕ, zero, suc, ◌<◌, ◌≡◌, refl, Bool-cases, inl, inr, List, [], ◌++◌, Option, none, some, arith,
}
use operating_systems_wet.Base.Bytes.{codes, c_string, same_text}
use operating_systems_wet.Rio.Read.{Rio, Event, rio_readinitb}
use operating_systems_wet.Rio.Line.{Line, line, end_of_file, read_error, rio_readlineb}
use operating_systems_wet.Rio.Line.Progress.{pending, Advances, rio_readlineb-Advances}
use operating_systems_wet.Request.Stats.{crlf}
use operating_systems_wet.Client.{
  Printed, printed_all, print_exits, header_got, print_headers, body_got, print_body, then_body,
  client_print, maxbuf, length_note,
}

abbrev Returns : Option Printed → Type 0
Returns o = (r : Printed) × (o ≡ some r)

print_headers-Returns :
    (fuel : ℕ) (printed : List ℕ) (rp : Rio)
    → pending rp < fuel
    → Returns (print_headers fuel printed rp)
unfolding print_headers
print_headers-Returns zero printed rp h = absurd (omega arith)
print_headers-Returns (suc fuel) printed rp h =
    got (rio_readlineb rp maxbuf) (rio_readlineb-Advances rp 8190)
      (λ printed' rp' less. print_headers-Returns fuel printed' rp' (omega arith))
  where
    got :
        (r : Line × Rio)
        → Advances r (pending rp)
        → ((printed' : List ℕ) (rp' : Rio)
            → pending rp' < pending rp
            → Returns (print_headers fuel printed' rp'))
        → Returns (header_got printed (print_headers fuel) r)
    got (line text n, rp') adv next = elim (Bool-cases (same_text (c_string text) crlf)) [
      | inl blank ↦ rw blank (printed_all printed rp', refl)
      | inr other ↦ rw other (
          next (printed ++ (codes "Header: " ++ (c_string text ++ length_note (c_string text)))) rp'
            adv)
    ]
    got (end_of_file, rp') adv next = (printed_all printed rp', refl)
    got (read_error, rp') adv next = (print_exits printed, refl)

print_body-Returns :
    (fuel : ℕ) (printed : List ℕ) (rp : Rio)
    → pending rp < fuel
    → Returns (print_body fuel printed rp)
unfolding print_body
print_body-Returns zero printed rp h = absurd (omega arith)
print_body-Returns (suc fuel) printed rp h =
    got (rio_readlineb rp maxbuf) (rio_readlineb-Advances rp 8190)
      (λ printed' rp' less. print_body-Returns fuel printed' rp' (omega arith))
  where
    got :
        (r : Line × Rio)
        → Advances r (pending rp)
        → ((printed' : List ℕ) (rp' : Rio)
            → pending rp' < pending rp
            → Returns (print_body fuel printed' rp'))
        → Returns (body_got printed (print_body fuel) r)
    got (line text n, rp') adv next = next (printed ++ c_string text) rp' adv
    got (end_of_file, rp') adv next = (printed_all printed rp', refl)
    got (read_error, rp') adv next = (print_exits printed, refl)

then_body-Returns : (o : Option Printed) → Returns o → Returns (then_body o)
then_body-Returns none (r, e) = absurd (cc)
then_body-Returns (some (printed_all printed rp)) h =
    print_body-Returns (suc (pending rp)) printed rp (omega arith)
then_body-Returns (some (print_exits printed)) h = (print_exits printed, refl)

-- `clientPrint` always comes to an end, whatever the connection delivers.
pub client_print_total : (fd : List Event) → (r : Printed) × (client_print fd ≡ some r)
unfolding client_print
client_print_total fd =
    then_body-Returns _
      (print_headers-Returns (suc (pending (rio_readinitb fd))) [] (rio_readinitb fd) (omega arith))
