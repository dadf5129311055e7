-- ===== src/SerialServer/State.antt =====
-- components/SerialServer/src/serial.c: the constants and the state of the server.
-- An unsigned integer that is used as a set of flags is the list of its bits, the lowest first, so
-- that a bit beyond its width is lost as it is in the source's conversion. -1 is `none`.
use global_components.Prelude.{
  ℕ, ◌-◌, ◌/◌, ◌%◌, Bool, Option, List, [], ◌∷◌, get_or, not, ◌&&◌, ltb, ◌==◌,
}

abbrev pub escape_char : ℕ
escape_char = b'@'

abbrev pub max_clients : ℕ
max_clients = 12

-- `MAX_CLIENTS * 2`: the processed streams, then the raw ones
abbrev pub max_buffers : ℕ
max_buffers = 24

abbrev pub client_output_buffer_size : ℕ
client_output_buffer_size = 4096

-- `sizeof (client_buffer_t.buf)`
abbrev pub getchar_buf_size : ℕ
getchar_buf_size = 4088

abbrev pub cr : ℕ
cr = 0x0d

abbrev pub lf : ℕ
lf = 0x0a

abbrev pub ctrl_c : ℕ
ctrl_c = 0x03

abbrev pub ctrl_z : ℕ
ctrl_z = 0x1a

-- `client_buffer_t`, in memory shared with the client, which moves `head`.
pub record GetcharBuffer : Type 0 where
  pub head : ℕ
  pub tail : ℕ
  pub buf : List ℕ

pub record GetcharClient : Type 0 where
  pub client_id : ℕ
  pub buf : GetcharBuffer
  pub last_head : ℕ

-- The texts of the server's own dialogue; each begins with `COLOR_RESET`.
pub data Message : Type 0 where
  multi_prompt scheduler_dump help multi_on : Message
  debug_level : ℕ → Message
  switching_to : ℕ → Message
  invalid_command : ℕ → Message
  added_client : Bool → ℕ → Message

-- What goes to the serial line: a byte, `COLOR_RESET` and the entry of `all_output_colours` at a
-- style and a slot, `COLOR_RESET` alone, or a message. The table has two rows, of which commas that
-- are missing leave the last slot NULL: what the streams 11, 22 and 23 print there is not known: only
-- the place where it is read is kept, and is taken for no other stream's colour.
pub data Printed : Type 0 where
  char : ℕ → Printed
  colour : ℕ → ℕ → Printed
  colour_reset : Printed
  message : Message → Printed

-- The values 0 to 3 of `statemachine`.
pub data InputState : Type 0 where
  in_line line_start escaped choosing : InputState

-- An output buffer is the list of its used bytes: `output_buffers_used` is its length. A list longer
-- than `CLIENT_OUTPUT_BUFFER_SIZE` goes on over the arrays of the streams behind it; what moving the
-- bytes of one stream does to those that it shares with another is not followed.
-- `out` is what was printed, the newest first, and `emitted` the badges that `getchar_emit` was
-- called with, the newest first. `has_getchar` says whether `getchar_num_badges` is linked in.
pub record Serial : Type 0 where
  pub last_out : Option ℕ
  pub output_buffers : List (List ℕ)
  pub output_buffer_bitmask : List Bool
  pub done_output : Bool
  pub has_data : Bool
  pub has_getchar : Bool
  pub getchar_clients : List GetcharClient
  pub active_client : Option ℕ
  pub active_multiclients : List Bool
  pub statemachine : InputState
  pub debug : ℕ
  pub out : List Printed
  pub emitted : List ℕ

abbrev pub buffer_at : Serial → ℕ → List ℕ
buffer_at s b = get_or s.output_buffers b []

-- `COLOUR_INDEX_TO_STYLE` and `COLOUR_INDEX_TO_SLOT`
abbrev pub colour_index_to_style : ℕ → ℕ
colour_index_to_style x = x / (max_clients - 1)

abbrev pub colour_index_to_slot : ℕ → ℕ
colour_index_to_slot x = x % max_clients

-- Whether the entry that stream `b` reads lies in the table and is a colour.
abbrev pub has_colour : ℕ → Bool
has_colour b = ltb b 22 && not (b == 11)

-- The bytes are printed in their order.
unfoldable pub print_chars : List ℕ → List Printed → List Printed
print_chars [] out = out
print_chars (c ∷ cs) out = print_chars cs (char c ∷ out)
