-- ===== src/Handler/Block1/Isolation.antt =====
-- What a request to loft/src/handler.rs does to the uploads of other connections and leaves.
use loft.Prelude.{
  ℕ, ◌+◌, ◌≡◌, ◌≢◌, refl, ◌∙◌, not, ◌&&◌, inl, inr, Option, none, some, List, length, ltb, leb,
  ◌==◌, arith, Bool-cases, Option-cases, if_ind,
}
use loft.Prelude.Eq.{nat_eq, bytes_key, pair_eq, pair_beq_iff}
use loft.Prelude.Assoc.{lookup, contains_key, insert, remove, lookup-insert, lookup-remove}
use loft.Coap.Code.{block1}
use loft.Coap.Message.{Message}
use loft.Coap.Block.Defs.{Block}
use loft.Handler.Types.{DeviceSession, block_of}
use loft.Handler.Block1.{
  Reassembly, Key, Table, max_block1_body, max_block1_entries, BodyState, start_upload,
  append_block, accept_block, assemble_block, assemble_body,
}

-- Another key's entry is what it was.
module _ (now : ℕ) (req : Message) (key other : Key) (apart : key ≢ other) where
  same_insert :
      (r : Reassembly) (table : Table) → lookup other (insert key r table) ≡ lookup other table
  same_insert r table = lookup-insert key other r table ∙ ground (arith, pair_beq_iff key other)

  same_remove : (table : Table) → lookup other (remove key table) ≡ lookup other table
  same_remove table = lookup-remove key other table ∙ ground (arith, pair_beq_iff key other)

  module _ (table : Table) where
    abbrev Same : BodyState × Table → Type 0
    Same o = lookup other o.1 ≡ lookup other table

  accept_block-Same :
      (b : Block) (table : Table) (found : Option Reassembly)
      → Same table (accept_block now req b key table found)
  unfolding accept_block append_block
  accept_block-Same b table none = refl
  accept_block-Same b table (some entry) =
      if_ind (Same table) (not (entry.next_num == b.num)) (λ _. same_remove table)
        (λ _.
          if_ind (Same table) (ltb max_block1_body (length entry.data_bytes + length req.payload))
            (λ _. same_remove table)
            (λ _. if_ind (Same table) b.more (λ _. same_insert _ table) (λ _. same_remove table)))

  assemble_block-Same :
      (b : Block) (table : Table) → Same table (assemble_block now req b key table)
  unfolding assemble_block start_upload
  assemble_block-Same b table =
      if_ind (Same table) (b.num == 0)
        (λ _.
          elim (Bool-cases
            (not (contains_key key table) && leb max_block1_entries (length table))) [
              | inl full ↦ rw full refl
              | inr room ↦ rw room (accept_block-Same b _ (lookup key _) ∙ same_insert _ table)
            ])
        (λ _. accept_block-Same b table (lookup key table))

-- A request leaves every upload of another connection or leaf as it was.
pub assemble_body-same :
    (now : ℕ) (req : Message) (session : DeviceSession) (leaf : List ℕ) (table : Table)
    (other : Key)
    → (session.conn_id, leaf) ≢ other
    → lookup other (assemble_body now req session leaf table).1 ≡ lookup other table
unfolding assemble_body
assemble_body-same now req session leaf table other apart =
    elim (Option-cases (block_of req block1)) [
      | inl whole ↦ rw whole refl
      | inr (b, blockwise) ↦
          rw blockwise (assemble_block-Same now req (session.conn_id, leaf) other apart b table)
    ]
