-- ===== src/Tests/Spun.antt =====
-- The CGI program by itself.
use operating_systems_wet.Base.{ℕ, ◌+◌, ◌-◌, ◌*◌, ◌/◌}
use operating_systems_wet.Base.Int.{pos_part}
use operating_systems_wet.Base.Bytes.{codes}
use operating_systems_wet.Base.Format.{value}
use operating_systems_wet.Output.{Doubles}
use operating_systems_wet.Output.Bounds.{page as page_of}

-- Doubles that are natural numbers of seconds.
abbrev seconds_only : Doubles
seconds_only = record {
  Double = ℕ;
  of_int = pos_part;
  million = 1000000;
  five = 5;
  plus = λ a b. a + b;
  minus = λ a b. a - b;
  divide = λ a b. a / b;
  times = λ a b. a * b;
  atof = λ s. value 0 s;
  print_2f = λ d. codes "1.00";
}
