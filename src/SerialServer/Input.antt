-- ===== src/SerialServer/Input.antt =====
-- components/SerialServer/src/serial.c: the characters that are typed.
use global_components.SerialServer.Output.{any_bit}
use global_components.Prelude.{
  ℕ, zero, suc, ◌+◌, ◌-◌, ◌%◌, Bool, true, false, ◌&&◌, ◌||◌, none, some, List, [], ◌∷◌, ◌++◌, ltb,
  leb, ◌==◌, if◌then◌else◌, length, get_or, set, replicate,
}
use global_components.SerialServer.State.{
  Serial, GetcharClient, Message, InputState, message, escape_char, getchar_buf_size, max_buffers,
  cr, lf, ctrl_c, ctrl_z, in_line, line_start, escaped, choosing, multi_prompt, scheduler_dump,
  help, multi_on, debug_level, switching_to, invalid_command, added_client,
}

-- What a read outside `getchar_clients` gives.
abbrev pub null_client : GetcharClient
null_client = record { client_id = 0; buf = record { head = 0; tail = 0; buf = [] }; last_head = 0 }

-- `internal_raw_putchar` for one client: the client afterwards and the badges that were signalled.
unfoldable pub raw_put : GetcharClient → ℕ → GetcharClient × List ℕ
raw_put k c =
    let b = k.buf in
    let next_tail = (b.tail + 1) % getchar_buf_size in
    let b' = record b { buf = set b.buf b.tail (c % 256); tail = next_tail } in
    if next_tail == b.head
    then (k, [])
    else if b.head == k.last_head
    then (record k { buf = b' }, [])
    else (record k { buf = b'; last_head = b.head }, k.client_id ∷ [])

unfoldable pub internal_raw_putchar : ℕ → ℕ → Serial → Serial
internal_raw_putchar id c s =
    let (k, out) = raw_put (get_or s.getchar_clients id null_client) c in
    record s { getchar_clients = set s.getchar_clients id k; emitted = out ++ s.emitted }

-- for (i = first; n rounds; i++) if ((active_multiclients & BIT(i)) == BIT(i)) …
unfoldable pub give_chosen : ℕ → ℕ → ℕ → Serial → Serial
give_chosen c i zero s = s
give_chosen c i (suc n) s =
    give_chosen c (i + 1) n
      (if get_or s.active_multiclients i false then internal_raw_putchar i c s else s)

unfoldable pub give_client_char : ℕ → Serial → Serial
give_client_char c s = elim s.active_client [
  | some a ↦ internal_raw_putchar a c s
  | none ↦ give_chosen c 0 max_buffers s
]

abbrev pub is_end : ℕ → Bool
is_end c = c == cr || c == lf || c == ctrl_c || c == ctrl_z

-- The digit of a client: `c >= '0' && c < '0' + num_getchar_clients`
abbrev pub is_client_digit : ℕ → Serial → Bool
is_client_digit c s = leb b'0' c && ltb c (b'0' + length s.getchar_clients)

abbrev pub say : Message → Serial → Serial
say m s = record s { out = message m ∷ s.out }

-- The commands that only print, and the digits. They all reset `last_out` and the state.
unfoldable pub handle_simple_command : ℕ → Serial → Serial
handle_simple_command c s =
    if c == b's'
    then say scheduler_dump s
    else if c == b'?'
    then say help s
    else if is_client_digit c s
    then say (switching_to (c - b'0')) (record s { active_client = some (c - b'0') })
    else say (invalid_command c) s

-- The command after the escape character.
unfoldable pub handle_command : ℕ → Serial → Serial
handle_command c s =
    if c == escape_char
    then give_client_char c (record s { statemachine = in_line })
    else if c == b'm'
    then say multi_prompt (record s {
      statemachine = choosing;
      active_multiclients = replicate 32 false;
      active_client = none;
      last_out = none;
    })
    else if c == b'd'
    then say (debug_level ((s.debug + 1) % 3))
        (record s { debug = (s.debug + 1) % 3; last_out = none; statemachine = line_start })
    else handle_simple_command c (record s { last_out = none; statemachine = line_start })

-- The choice of the clients that share the input.
unfoldable pub handle_choice : ℕ → Serial → Serial
handle_choice c s =
    if is_client_digit c s
    then say (added_client (any_bit s.active_multiclients) (c - b'0')) (record s {
      active_multiclients = set s.active_multiclients (c - b'0') true;
      last_out = none;
    })
    else if c == b'm' || c == b'M' || c == cr || c == lf
    then say multi_on (record s { last_out = none; statemachine = line_start })
    else s

unfoldable pub handle_line_start : ℕ → Serial → Serial
handle_line_start c s =
    if is_end c
    then give_client_char c s
    else if c == escape_char
    then record s { statemachine = escaped }
    else give_client_char c (record s { statemachine = in_line })

unfoldable pub handle_in_line : ℕ → Serial → Serial
handle_in_line c s =
    give_client_char c (if is_end c then record s { statemachine = line_start } else s)

unfoldable pub handle_by_state : InputState → ℕ → Serial → Serial
handle_by_state in_line c s = handle_in_line c s
handle_by_state line_start c s = handle_line_start c s
handle_by_state escaped c s = handle_command c s
handle_by_state choosing c s = handle_choice c s

unfoldable pub handle_char : ℕ → Serial → Serial
handle_char c s = if s.has_getchar then handle_by_state s.statemachine c s else s

unfoldable pub handle_chars : List ℕ → Serial → Serial
handle_chars [] s = s
handle_chars (c ∷ cs) s = handle_chars cs (handle_char c s)
