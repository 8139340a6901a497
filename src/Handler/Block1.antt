-- ===== src/Handler/Block1.antt =====
-- Block1 reassembly: `sweep_block1` and `assemble_body`, over the table behind the handler's lock.
pub mod Bounds
pub mod Isolation
pub mod Upload
use loft.Prelude.{
  ℕ, ◌+◌, ◌-◌, ◌*◌, Bool, not, ◌&&◌, Option, none, some, List, [], ◌++◌, length, ltb, leb, ◌==◌,
  if◌then◌else◌,
}
use loft.Prelude.Eq.{nat_eq, bytes_key, pair_eq}
use loft.Prelude.Assoc.{lookup, contains_key, insert, remove, retain}
use loft.Coap.Code.{
  block1, continue, service_unavailable, request_entity_incomplete, request_entity_too_large,
}
use loft.Coap.Message.{Message, response, set_option_uint}
use loft.Coap.Block.Defs.{Block, encode}
use loft.Handler.Types.{DeviceSession, block_of, diagnostic, seconds}

pub record Reassembly : Type 0 where
  pub data_bytes : List ℕ
  pub next_num : ℕ
  pub touched : ℕ

-- The connection id and the leaf.
abbrev pub Key : Type 0
Key = ℕ × List ℕ

abbrev pub Table : Type 0
Table = List (Key × Reassembly)

abbrev pub max_block1_body : ℕ
max_block1_body = 64 * 1024

abbrev pub block1_idle_timeout : ℕ
block1_idle_timeout = seconds 90

-- `MAX_BLOCK1_ENTRIES` is `MAX_CONNECTIONS` of loft/src/quota.rs.
abbrev pub max_block1_entries : ℕ
max_block1_entries = 4096

-- `duration_since` stops at zero, as subtraction on ℕ does.
abbrev pub is_fresh : ℕ → Reassembly → Bool
is_fresh now r = ltb (now - r.touched) block1_idle_timeout

unfoldable pub sweep_block1 : ℕ → Table → Table
sweep_block1 now table = retain (is_fresh now) table

pub data BodyState : Type 0 where
  complete : List ℕ → BodyState
  interim : Message → BodyState

-- The entry that block 0 starts, unless the table is full and has none for the key.
unfoldable pub start_upload : ℕ → Key → Table → Option Table
start_upload now key table =
    if not (contains_key key table) && leb max_block1_entries (length table)
    then none
    else some (insert key (record { data_bytes = []; next_num = 0; touched = now }) table)

-- The block is in sequence and fits: it is appended, and the last one takes the body out.
unfoldable pub append_block : ℕ → Message → Block → Key → Table → Reassembly → BodyState × Table
append_block now req b key table entry =
    let entry' : Reassembly = record {
      data_bytes = entry.data_bytes ++ req.payload;
      next_num = entry.next_num + 1;
      touched = now;
    } in
    if b.more
    then (
      interim (set_option_uint (response continue req) block1 (encode b)),
      insert key entry' table,
    )
    else (complete entry'.data_bytes, remove key table)

unfoldable pub accept_block :
    ℕ → Message → Block → Key → Table → Option Reassembly → BodyState × Table
accept_block now req b key table none =
    (interim (diagnostic req request_entity_incomplete "no block context"), table)
accept_block now req b key table (some entry) =
    if not (entry.next_num == b.num)
    then (
      interim (diagnostic req request_entity_incomplete "block out of sequence"),
      remove key table,
    )
    else if ltb max_block1_body (length entry.data_bytes + length req.payload)
    then (interim (diagnostic req request_entity_too_large "body too large"), remove key table)
    else append_block now req b key table entry

abbrev pub after_start : ℕ → Message → Block → Key → Option Table → Table → BodyState × Table
after_start now req b key none table =
    (interim (diagnostic req service_unavailable "block1 reassembly table full"), table)
after_start now req b key (some table') table =
    accept_block now req b key table' (lookup key table')

unfoldable pub assemble_block : ℕ → Message → Block → Key → Table → BodyState × Table
assemble_block now req b key table =
    if b.num == 0
    then after_start now req b key (start_upload now key table) table
    else accept_block now req b key table (lookup key table)

abbrev pub assemble_option : ℕ → Message → Option Block → Key → Table → BodyState × Table
assemble_option now req none key table = (complete req.payload, table)
assemble_option now req (some b) key table = assemble_block now req b key table

unfoldable pub assemble_body : ℕ → Message → DeviceSession → List ℕ → Table → BodyState × Table
assemble_body now req session leaf table =
    assemble_option now req (block_of req block1) (session.conn_id, leaf) table
