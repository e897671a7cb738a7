-- ===== src/Client/Shows.antt =====
-- What `clientPrint` shows of an answer.
pub mod Length
use operating_systems_wet.Base.{
  ℕ, zero, suc, ◌<◌, ◌==◌, ◌≡◌, refl, sym, subst, ap, ap₂, ◌∙◌, Bool, true, not, ◌&&◌, ltb→lt, List,
  [], ◌∷◌, ◌++◌, append_assoc, append-nil, length, Option, some, arith,
}
use operating_systems_wet.Base.Bytes.{codes, c_string}
use operating_systems_wet.Rio.Read.{Rio, Event, rio_readinitb}
use operating_systems_wet.Rio.Read.Stream.{at_end, Stream, stream, flow}
use operating_systems_wet.Rio.Line.{Line, line, end_of_file, read_error, rio_readlineb}
use operating_systems_wet.Rio.Line.Text.{c_string-in_line, rio_readlineb-in_line}
use operating_systems_wet.Rio.Line.Closed.{
  is_closed, flow-is_closed, Conserves, rio_readlineb-Conserves,
}
use operating_systems_wet.Rio.Line.Progress.{pending, Advances, rio_readlineb-Advances}
use operating_systems_wet.Request.Headers.Spec.{is_header, all_headers, header_text, not_blank}
use operating_systems_wet.Client.{
  Printed, printed_all, print_headers, body_got, print_body, client_print, maxbuf, length_note,
}

-- One header line, as it is shown.
abbrev pub shown_header : List ℕ → List ℕ
shown_header w = codes "Header: " ++ ((w ++ (b'\n' ∷ [])) ++ length_note (w ++ (b'\n' ∷ [])))

abbrev pub shown_headers : List (List ℕ) → List ℕ
shown_headers [] = []
shown_headers (w ∷ ws) = shown_header w ++ shown_headers ws

-- No byte is zero.
abbrev pub no_zero : List ℕ → Bool
no_zero [] = true
no_zero (c ∷ s) = not (c == 0) && no_zero s

c_string-no_zero : (s : List ℕ) → no_zero s ≡ true → c_string s ≡ s
c_string-no_zero [] h = refl
c_string-no_zero (c ∷ s) h = ground (arith, c_string-no_zero s)

no_zero-append :
    (s rest : List ℕ) → no_zero (s ++ rest) ≡ true → (no_zero s ≡ true) × (no_zero rest ≡ true)
no_zero-append [] rest h = (refl, h)
no_zero-append (c ∷ s) rest h = let ih = no_zero-append s rest (ground arith) in ground (arith, ih)

-- What is printed in the end.
abbrev Shows : Option Printed → List ℕ → Type 0
Shows o printed = (rp' : Rio) × (o ≡ some (printed_all printed rp'))

print_body-Shows :
    (fuel : ℕ) (printed : List ℕ) (rp : Rio)
    → pending rp < fuel
    → is_closed rp.fd ≡ true
    → no_zero (stream rp).coming ≡ true
    → Shows (print_body fuel printed rp) (printed ++ (stream rp).coming)
unfolding print_body
print_body-Shows zero printed rp h closed zeros = absurd (omega arith)
print_body-Shows (suc fuel) printed rp h closed zeros =
    got (rio_readlineb rp maxbuf) (stream rp).coming (rio_readlineb-Advances rp 8190)
      (rio_readlineb-Conserves rp maxbuf closed) zeros
      (λ printed' rp' less closed' zeros'.
        print_body-Shows fuel printed' rp' (omega arith) closed' zeros')
  where
    got :
        (r : Line × Rio) (coming : List ℕ)
        → Advances r (pending rp)
        → Conserves r coming
        → no_zero coming ≡ true
        → ((printed' : List ℕ) (rp' : Rio)
            → pending rp' < pending rp
            → is_closed rp'.fd ≡ true
            → no_zero (stream rp').coming ≡ true
            → Shows (print_body fuel printed' rp') (printed' ++ (stream rp').coming))
        → Shows (body_got printed (print_body fuel) r) (printed ++ coming)
    got (line text n, rp') coming adv (closed', whole) zeros next =
        let (z, z') =
          no_zero-append text (stream rp').coming
            (subst (λ l. no_zero l ≡ true) (sym whole) zeros) in
        let (rp'', e) = next (printed ++ c_string text) rp' adv closed' z' in
        (
          rp'',
          e
              ∙ ap (λ l. some (printed_all l rp''))
                  (ap (λ l. (printed ++ l) ++ (stream rp').coming) (c_string-no_zero text z)
                    ∙ append_assoc printed text (stream rp').coming
                    ∙ ap (λ l. printed ++ l) whole),
        )
    got (end_of_file, rp') coming adv (empty, gone) zeros next = (
      rp',
      ap (λ l. some (printed_all l rp'))
          (sym (append-nil printed) ∙ ap (λ l. printed ++ l) (sym empty)),
    )
    got (read_error, rp') coming adv none_left zeros next = absurd none_left

stays_closed :
    (rp rp' : Rio) (text : List ℕ) (n : ℕ)
    → is_closed rp.fd ≡ true
    → rio_readlineb rp maxbuf ≡ (line text n, rp')
    → is_closed rp'.fd ≡ true
stays_closed rp rp' text n closed got =
    (subst (λ r. Conserves r (stream rp).coming) got (rio_readlineb-Conserves rp maxbuf closed)).0

less_pending :
    (rp rp' : Rio) (text : List ℕ) (n fuel : ℕ)
    → pending rp < suc fuel
    → rio_readlineb rp maxbuf ≡ (line text n, rp')
    → pending rp' < fuel
less_pending rp rp' text n fuel less got =
    let fewer : pending rp' < pending rp =
      subst (λ r. Advances r (pending rp)) got (rio_readlineb-Advances rp 8190) in
    omega arith

regrouped :
    (o : Option Printed) (a b c : List ℕ) (rp : Rio)
    → o ≡ some (printed_all ((a ++ b) ++ c) rp)
    → o ≡ some (printed_all (a ++ (b ++ c)) rp)
regrouped o a b c rp e = e ∙ ap (λ l. some (printed_all l rp)) (append_assoc a b c)

print_headers-Shows :
    (fuel : ℕ) (ws : List (List ℕ)) (body printed : List ℕ) (rp : Rio)
    → pending rp < fuel
    → all_headers ws ≡ true
    → is_closed rp.fd ≡ true
    → stream rp ≡ record { coming = header_text ws body; stop = at_end }
    → (rp' : Rio) × (print_headers fuel printed rp
        ≡ some (printed_all (printed ++ shown_headers ws) rp'))
      × (is_closed rp'.fd ≡ true)
      × (stream rp' ≡ record { coming = body; stop = at_end })
unfolding print_headers
print_headers-Shows zero ws body printed rp less h closed same = absurd (omega arith)
print_headers-Shows (suc fuel) [] body printed rp less h closed same =
    let (rp', got, left) =
      rio_readlineb-in_line rp 8191 (13 ∷ []) body at_end refl (omega arith) same in
    (
      rp',
      rw got (ap (λ l. some (printed_all l rp')) (sym (append-nil printed))),
      stays_closed rp rp' _ _ closed got,
      left,
    )
print_headers-Shows (suc fuel) (w ∷ ws) body printed rp less h closed same =
    let ok : is_header w ≡ true = ground arith in
    let (rp', got, left) =
      rio_readlineb-in_line rp 8191 w (header_text ws body) at_end (ground arith)
        (ltb→lt (length w) 8191 (ground arith)) same in
    let (rp'', done, closed', left') =
      print_headers-Shows fuel ws body (printed ++ shown_header w) rp'
        (less_pending rp rp' _ _ fuel less got) (ground arith) (stays_closed rp rp' _ _ closed got)
        left in
    (
      rp'',
      rw (got, not_blank w ok, c_string-in_line w (ground arith))
          (regrouped _ printed (shown_header w) (shown_headers ws) rp'' done),
      closed',
      left',
    )

-- On a connection that delivers header lines that fit the buffer, a blank line and a body without zero
-- bytes, in any pieces, and then stays at its end, `clientPrint` shows each header line, with the number
-- behind it where it gives the length, and then the body as it is.
pub client_print_lem :
    (fd : List Event) (ws : List (List ℕ)) (body : List ℕ)
    → is_closed fd ≡ true
    → all_headers ws ≡ true
    → no_zero body ≡ true
    → (flow fd).coming ≡ header_text ws body
    → (rp' : Rio) × (client_print fd ≡ some (printed_all (shown_headers ws ++ body) rp'))
unfolding client_print rio_readinitb
client_print_lem fd ws body closed h zeros same =
    let rp : Rio = record { fd = fd; unread = [] } in
    let (rp', done, closed', left) =
      print_headers-Shows (suc (pending rp)) ws body [] rp (omega arith) h closed
        (ap₂ (λ c s. record { coming = c; stop = s }) same (flow-is_closed fd closed)) in
    let come : (stream rp').coming ≡ body = ap (λ (s : Stream). s.coming) left in
    let (rp'', e) =
      print_body-Shows (suc (pending rp')) (shown_headers ws) rp' (omega arith) closed'
        (subst (λ l. no_zero l ≡ true) (sym come) zeros) in
    (rp'', rw done e ∙ ap (λ l. some (printed_all (shown_headers ws ++ l) rp'')) come)
