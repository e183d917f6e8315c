-- ===== src/Application/CommandLine.antt =====
-- The command lines that main.c describes, and what is read from them.
use modbus_sphere_library.Base.{
  ℕ, zero, suc, ◌+◌, ◌-◌, ◌≡◌, refl, ap, ap₂, sym, ◌∙◌, List, [], ◌∷◌, ◌++◌, true, false, Option,
  none, some, if◌then◌else◌, leb, ◌==◌, length, set, get_elem?, replicate, map, arith,
  length-append, append_assoc, append-nil, Bool-cases, inl, inr,
}
use modbus_sphere_library.Outcome.{Outcome, ok, fault, hang, ◌>>=◌}
use modbus_sphere_library.Application.Arguments.{
  ConnectionType, tcp, rtu_over_tcp, rtu, DeviceConnection, ArgConnections, no_connections,
  first_char, second_char, changed, change_entry, add_connection, option_of, read_arguments,
  copy_scope_id, read_command_line,
}

pub data Device : Type 0 where
  tcp_device rtu_over_tcp_device : List ℕ → Device
  rtu_device : Device

-- "-t", "-o" and "-r".
unfoldable pub arguments_of : List Device → List (List ℕ)
arguments_of [] = []
arguments_of (tcp_device address ∷ ds) = (45 ∷ 116 ∷ []) ∷ address ∷ arguments_of ds
arguments_of (rtu_over_tcp_device address ∷ ds) = (45 ∷ 111 ∷ []) ∷ address ∷ arguments_of ds
arguments_of (rtu_device ∷ ds) = (45 ∷ 114 ∷ []) ∷ arguments_of ds

-- Not an option.
abbrev pub IsPlain : List ℕ → Type 0
IsPlain text = (first_char text == 45) ≡ false

abbrev pub AreAddressed : List Device → Type 0
AreAddressed [] = Unit {0}
AreAddressed (tcp_device address ∷ ds) = IsPlain address × AreAddressed ds
AreAddressed (rtu_over_tcp_device address ∷ ds) = IsPlain address × AreAddressed ds
AreAddressed (rtu_device ∷ ds) = AreAddressed ds

unfoldable pub type_of : Device → ConnectionType
type_of (tcp_device address) = tcp
type_of (rtu_over_tcp_device address) = rtu_over_tcp
type_of rtu_device = rtu

unfoldable pub address_of : Device → Option (List ℕ)
address_of (tcp_device address) = some address
address_of (rtu_over_tcp_device address) = some address
address_of rtu_device = none

unfoldable pub connection_of : Device → DeviceConnection
unfolding type_of address_of
connection_of d = record { connection_type = type_of d; address = address_of d; modbushndl = none }

abbrev pub blank : DeviceConnection
blank = record { connection_type = tcp; address = none; modbushndl = none }

-- With these connections, and room for `k` more.
unfoldable pub connections : List DeviceConnection → ℕ → ArgConnections
connections made k = record { arg_num = length made; arg_connections = made ++ replicate k blank }

get_elem?-end :
    (made rest : List DeviceConnection) → get_elem? (made ++ rest) (length made) ≡ get_elem? rest 0
get_elem?-end [] rest = refl
get_elem?-end (d ∷ made) rest = get_elem?-end made rest

set-end :
    (made rest : List DeviceConnection) (old new : DeviceConnection)
    → set (made ++ (old ∷ rest)) (length made) new ≡ (made ++ (new ∷ [])) ++ rest
set-end [] rest old new = refl
set-end (d ∷ made) rest old new = ap (λ l. d ∷ l) (set-end made rest old new)

module _ (made : List DeviceConnection) (type : ConnectionType) (address : Option (List ℕ)) where
  no_room : add_connection type address (connections made 0) ≡ fault
  unfolding add_connection connections
  no_room = rw (get_elem?-end made [], change_entry) refl

  one_more :
      (k : ℕ)
      → add_connection type address (connections made (suc k))
        ≡ ok (connections (made ++ (changed type address blank ∷ [])) k)
  unfolding add_connection connections
  one_more k =
      let counted : length made + 1 ≡ length (made ++ (changed type address blank ∷ [])) =
        omega (arith, length-append made (changed type address blank ∷ [])) in
      rw (get_elem?-end made (blank ∷ replicate k blank), change_entry)
        (ap₂ (λ n l. ok (record { arg_num = n; arg_connections = l })) counted
          (set-end made (replicate k blank) blank (changed type address blank)))

then_ok {ℓ} : {A : Type ℓ} → (m : Outcome A) → m ≡ (m >>= λ a. ok a)
then_ok (ok a) = refl
then_ok fault = refl
then_ok hang = refl

plain_skipped :
    (text : List ℕ) (rest : List (List ℕ)) (c : ArgConnections)
    → IsPlain text
    → read_arguments (text ∷ rest) c ≡ read_arguments rest c
unfolding read_arguments
plain_skipped text [] c h = rw h refl
plain_skipped text (next ∷ rest) c h = rw h refl

rtu_read :
    (rest : List (List ℕ)) (c : ArgConnections)
    → read_arguments ((45 ∷ 114 ∷ []) ∷ rest) c
      ≡ (add_connection rtu none c >>= λ c'. read_arguments rest c')
unfolding read_arguments first_char second_char option_of
rtu_read [] c = then_ok (add_connection rtu none c)
rtu_read (next ∷ rest) c = refl

device_read :
    (d : Device) (ds : List Device) (c : ArgConnections)
    → AreAddressed (d ∷ ds)
    → read_arguments (arguments_of (d ∷ ds)) c
      ≡ (add_connection (type_of d) (address_of d) c >>= λ c'. read_arguments (arguments_of ds) c')
unfolding read_arguments arguments_of first_char second_char option_of type_of address_of
device_read (tcp_device address) ds c (plain, rest) = rw plain refl
device_read (rtu_over_tcp_device address) ds c (plain, rest) = rw plain refl
device_read rtu_device ds c rest = rtu_read (arguments_of ds) c

rest_addressed : (d : Device) (ds : List Device) → AreAddressed (d ∷ ds) → AreAddressed ds
rest_addressed (tcp_device address) ds (plain, rest) = rest
rest_addressed (rtu_over_tcp_device address) ds (plain, rest) = rest
rest_addressed rtu_device ds rest = rest

-- With room for `k` more.
unfoldable pub outcome_of : List Device → ℕ → List DeviceConnection → Outcome ArgConnections
outcome_of ds k made =
    if leb (length ds) k
    then ok (connections (made ++ map connection_of ds) (k - length ds))
    else fault

changed-connection_of : (d : Device) → changed (type_of d) (address_of d) blank ≡ connection_of d
unfolding changed type_of address_of connection_of
changed-connection_of (tcp_device address) = refl
changed-connection_of (rtu_over_tcp_device address) = refl
changed-connection_of rtu_device = refl

outcome_of_next :
    (d : Device) (ds : List Device) (k : ℕ) (made : List DeviceConnection)
    → outcome_of ds k (made ++ (connection_of d ∷ [])) ≡ outcome_of (d ∷ ds) (suc k) made
unfolding outcome_of
outcome_of_next d ds k made =
    let same : leb (suc (length ds)) (suc k) ≡ leb (length ds) k = ground arith in
    let left : suc k - suc (length ds) ≡ k - length ds = omega arith in
    rw (same, left)
      (ap (λ l. if leb (length ds) k then ok (connections l (k - length ds)) else fault)
        (append_assoc made (connection_of d ∷ []) (map connection_of ds)))

devices_read :
    (ds : List Device) (k : ℕ) (made : List DeviceConnection)
    → AreAddressed ds
    → read_arguments (arguments_of ds) (connections made k) ≡ outcome_of ds k made
unfolding read_arguments arguments_of outcome_of
devices_read [] k made a =
    let all : leb 0 k ≡ true = ground arith in
    let left : k - 0 ≡ k = omega arith in
    rw (all, left) (ap (λ l. ok (connections l k)) (sym (append-nil made)))
devices_read (d ∷ ds) zero made a =
    let none_fits : leb (suc (length ds)) 0 ≡ false = ground arith in
    device_read d ds (connections made 0) a
    ∙ rw (no_room made (type_of d) (address_of d), none_fits) refl
devices_read (d ∷ ds) (suc k) made a =
    device_read d ds (connections made (suc k)) a
    ∙ rw (one_more made (type_of d) (address_of d) k, changed-connection_of d)
        (devices_read ds k (made ++ (connection_of d ∷ [])) (rest_addressed d ds a)
          ∙ outcome_of_next d ds k made)

-- For a program's name, a scope and addresses that do not begin with a dash: from the command line
-- with that name, that scope and the options "-t address", "-o address" and "-r" of a list of at
-- most five devices, `main` reads exactly these devices, in their order, and the first 20
-- characters of the scope, filled up with NULs; with more than five devices it stores behind the
-- end of `argConnections`.
pub read_command_line-arguments_of :
    (name scope : List ℕ) (ds : List Device)
    → IsPlain name
    → IsPlain scope
    → AreAddressed ds
    → read_command_line (name ∷ scope ∷ arguments_of ds) ≡ (
        if leb (length ds) 5
        then ok (connections (map connection_of ds) (5 - length ds), some (copy_scope_id scope))
        else fault)
unfolding read_command_line no_connections outcome_of connections
read_command_line-arguments_of name scope ds n s a =
    let all : read_arguments (name ∷ scope ∷ arguments_of ds) (connections [] 5)
        ≡ outcome_of ds 5 [] =
      plain_skipped name (scope ∷ arguments_of ds) (connections [] 5) n
      ∙ plain_skipped scope (arguments_of ds) (connections [] 5) s
      ∙ devices_read ds 5 [] a in
    elim (Bool-cases (leb (length ds) 5)) [ inl e ↦ rw (all, e, s) refl | inr e ↦ rw (all, e) refl ]
