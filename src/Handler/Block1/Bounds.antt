-- ===== src/Handler/Block1/Bounds.antt =====
-- The limits of the Block1 table of loft/src/handler.rs.
use loft.Prelude.{
  ℕ, ◌+◌, ◌≤◌, ◌≡◌, refl, ◌∙◌, true, not, inl, inr, Option, none, some, List, [], length, ltb, ◌==◌,
  length-append, arith, Option-cases, if_ind,
}
use loft.Prelude.Eq.{nat_eq, bytes_key, pair_eq}
use loft.Prelude.Assoc.{
  lookup, contains_key, insert, remove, AllValues, Distinct, insert-AllValues, remove-AllValues,
  retain-AllValues, insert-Distinct, remove-Distinct, retain-Distinct, length-insert,
  length-remove-le, length-retain-le, contains_key-lookup,
}
use loft.Coap.Code.{block1}
use loft.Coap.Message.{Message}
use loft.Coap.Block.Defs.{Block}
use loft.Handler.Types.{DeviceSession, block_of}
use loft.Handler.Block1.{
  Reassembly, Key, Table, max_block1_body, max_block1_entries, is_fresh, sweep_block1, BodyState,
  start_upload, append_block, accept_block, assemble_block, assemble_body,
}

abbrev pub Small : Reassembly → Type 0
Small r = length r.data_bytes ≤ max_block1_body

-- At most 4096 uploads, each of at most 64 KiB, and one for each key.
pub record IsBounded (table : Table) : Type 0 where
  pub entries : length table ≤ max_block1_entries
  pub bodies : AllValues Small table
  pub distinct : Distinct table

pub sweep_block1-IsBounded :
    (now : ℕ) (table : Table) → IsBounded table → IsBounded (sweep_block1 now table)
unfolding sweep_block1
sweep_block1-IsBounded now table b = record {
  entries = omega (arith, length-retain-le (is_fresh now) table, b.entries);
  bodies = retain-AllValues Small (is_fresh now) table b.bodies;
  distinct = retain-Distinct (is_fresh now) table b.distinct;
}

-- Writing under a key that is there, and removing.
remove-IsBounded : (key : Key) (table : Table) → IsBounded table → IsBounded (remove key table)
remove-IsBounded key table b = record {
  entries = omega (arith, length-remove-le key table, b.entries);
  bodies = remove-AllValues Small key table b.bodies;
  distinct = remove-Distinct key table b.distinct;
}

insert-IsBounded :
    (key : Key) (r : Reassembly) (table : Table)
    → Small r
    → length (insert key r table) ≤ max_block1_entries
    → IsBounded table
    → IsBounded (insert key r table)
insert-IsBounded key r table small fits b = record {
  entries = fits;
  bodies = insert-AllValues Small key r table small b.bodies;
  distinct = insert-Distinct key r table b.distinct;
}

start_upload-IsBounded :
    (now : ℕ) (key : Key) (table table' : Table)
    → IsBounded table
    → start_upload now key table ≡ some table'
    → IsBounded table'
unfolding start_upload
start_upload-IsBounded now key table table' b e =
    let fresh : Reassembly = record { data_bytes = []; next_num = 0; touched = now } in
    let made : insert key fresh table ≡ table' = ground arith in
    let room : length (insert key fresh table) ≤ max_block1_entries =
      ground (arith, length-insert key fresh table, b.entries) in
    rw made at (insert-IsBounded key fresh table (omega arith) room b)

contains_of_lookup :
    (key : Key) (table : Table) (r : Reassembly)
    → lookup key table ≡ some r
    → contains_key key table ≡ true
contains_of_lookup key table r e = contains_key-lookup key table ∙ rw e

append_block-IsBounded :
    (now : ℕ) (req : Message) (b : Block) (key : Key) (table : Table) (entry : Reassembly)
    → lookup key table ≡ some entry
    → length entry.data_bytes + length req.payload ≤ max_block1_body
    → IsBounded table
    → IsBounded (append_block now req b key table entry).1
unfolding append_block
append_block-IsBounded now req b key table entry e fits t =
    if_ind (λ (o : BodyState × Table). IsBounded o.1) b.more
      (λ _.
        insert-IsBounded key _ table (omega (arith, length-append entry.data_bytes req.payload))
          (rw (length-insert, contains_of_lookup key table entry e) t.entries) t)
      (λ _. remove-IsBounded key table t)

accept_block-IsBounded :
    (now : ℕ) (req : Message) (b : Block) (key : Key) (table : Table) (found : Option Reassembly)
    → lookup key table ≡ found
    → IsBounded table
    → IsBounded (accept_block now req b key table found).1
unfolding accept_block
accept_block-IsBounded now req b key table none e t = t
accept_block-IsBounded now req b key table (some entry) e t =
    let settled = λ (o : BodyState × Table). IsBounded o.1 in
    let dropped = remove-IsBounded key table t in
    if_ind settled (not (entry.next_num == b.num)) (λ _. dropped)
      (λ _.
        if_ind settled (ltb max_block1_body (length entry.data_bytes + length req.payload))
          (λ _. dropped)
          (λ fits. append_block-IsBounded now req b key table entry e (ground arith) t))

assemble_block-IsBounded :
    (now : ℕ) (req : Message) (b : Block) (key : Key) (table : Table)
    → IsBounded table
    → IsBounded (assemble_block now req b key table).1
unfolding assemble_block
assemble_block-IsBounded now req b key table t =
    if_ind (λ (o : BodyState × Table). IsBounded o.1) (b.num == 0)
      (λ _. elim (Option-cases (start_upload now key table)) [
        | inl full ↦ rw full t
        | inr (table', started) ↦ rw started (
            accept_block-IsBounded now req b key table' (lookup key table') refl
              (start_upload-IsBounded now key table table' t started))
      ])
      (λ _. accept_block-IsBounded now req b key table (lookup key table) refl t)

-- Assembling a body keeps the table within its limits, whatever the request.
pub assemble_body-IsBounded :
    (now : ℕ) (req : Message) (session : DeviceSession) (leaf : List ℕ) (table : Table)
    → IsBounded table
    → IsBounded (assemble_body now req session leaf table).1
unfolding assemble_body
assemble_body-IsBounded now req session leaf table t = elim (Option-cases (block_of req block1)) [
  | inl whole ↦ rw whole t
  | inr (b, blockwise) ↦
      rw blockwise (assemble_block-IsBounded now req b (session.conn_id, leaf) table t)
]
