-- ===== src/Handler/Block1/Upload.antt =====
-- A Block1 upload to loft/src/handler.rs, block by block.
use loft.Prelude.{
  ℕ, ◌+◌, ◌-◌, ◌≤◌, ◌<◌, ◌≡◌, refl, ap, ◌∙◌, true, false, Option, none, some, List, [], ◌∷◌, ◌++◌,
  length, length-append, arith,
}
use loft.Prelude.Eq.{nat_eq, bytes_key, pair_eq, pair_beq_iff}
use loft.Prelude.Assoc.{
  lookup, insert, Distinct, insert-Distinct, retain-Distinct, lookup-insert, lookup-retain,
  length-retain-le,
}
use loft.Coap.Code.{block1, continue}
use loft.Coap.Message.{Message, response, set_option_uint}
use loft.Coap.Block.Defs.{Block, encode}
use loft.Handler.Types.{DeviceSession, block_of}
use loft.Handler.Block1.{
  Reassembly, Key, Table, max_block1_body, max_block1_entries, block1_idle_timeout, is_fresh,
  sweep_block1, BodyState, complete, interim, start_upload, append_block, accept_block,
  assemble_block, assemble_body,
}

-- A request with the time at which it arrives. Each request sweeps the table, then adds its block.
abbrev pub Arrival : Type 0
Arrival = ℕ × Message

unfoldable pub send : DeviceSession → List ℕ → List Arrival → Table → List BodyState × Table
send session leaf [] table = ([], table)
send session leaf ((now, req) ∷ rest) table =
    let r = assemble_body now req session leaf (sweep_block1 now table) in
    let s = send session leaf rest r.1 in (r.0 ∷ s.0, s.1)

-- The requests carry blocks `num`, `num + 1`, … and only the last says that no more follow.
abbrev pub Numbered : ℕ → List Arrival → Type 0
Numbered num [] = ⊥
Numbered num ((now, req) ∷ []) =
    (szx : ℕ) × (block_of req block1 ≡ some (record { num = num; more = false; szx = szx }))
Numbered num ((now, req) ∷ next ∷ rest) =
    ((szx : ℕ) × (block_of req block1 ≡ some (record { num = num; more = true; szx = szx })))
    × Numbered (num + 1) (next ∷ rest)

-- No request arrives 90 seconds after the one before, or later.
abbrev pub Timely : ℕ → List Arrival → Type 0
Timely touched [] = Unit {0}
Timely touched ((now, req) ∷ rest) = (now - touched < block1_idle_timeout) × Timely now rest

abbrev pub body_of : List Arrival → List ℕ
body_of [] = []
body_of ((now, req) ∷ rest) = req.payload ++ body_of rest

-- 2.31 Continue with the request's block echoed.
abbrev pub continue_reply : Option Block → Message → Message
continue_reply none req = response continue req
continue_reply (some b) req = set_option_uint (response continue req) block1 (encode b)

-- Continue for each block but the last, which completes the body.
unfoldable pub answers : List ℕ → List Arrival → List BodyState
answers before [] = []
answers before ((now, req) ∷ []) = complete (before ++ req.payload) ∷ []
answers before ((now, req) ∷ next ∷ rest) =
    interim (continue_reply (block_of req block1) req)
    ∷ answers (before ++ req.payload) (next ∷ rest)

module _ (session : DeviceSession) (leaf : List ℕ) where
  abbrev key : Key
  key = (session.conn_id, leaf)

  -- A block in sequence that fits is appended.
  accept_block-append :
      (now : ℕ) (req : Message) (b : Block) (table : Table) (entry : Reassembly)
      → entry.next_num ≡ b.num
      → length entry.data_bytes + length req.payload ≤ max_block1_body
      → accept_block now req b key table (some entry) ≡ append_block now req b key table entry
  unfolding accept_block
  accept_block-append now req b table entry e fits = ground arith

  assemble_body-append :
      (now : ℕ) (req : Message) (b : Block) (table : Table) (entry : Reassembly)
      → block_of req block1 ≡ some b
      → lookup key table ≡ some entry
      → 0 < b.num
      → entry.next_num ≡ b.num
      → length entry.data_bytes + length req.payload ≤ max_block1_body
      → assemble_body now req session leaf table ≡ append_block now req b key table entry
  unfolding assemble_body assemble_block
  assemble_body-append now req b table entry blockwise found later e fits =
      ground (arith, accept_block-append now req b table entry e fits)

  -- An entry that is fresh survives the sweep.
  lookup-sweep :
      (now : ℕ) (table : Table) (entry : Reassembly)
      → Distinct table
      → lookup key table ≡ some entry
      → now - entry.touched < block1_idle_timeout
      → lookup key (sweep_block1 now table) ≡ some entry
  unfolding sweep_block1
  lookup-sweep now table entry d found fresh =
      lookup-retain (is_fresh now) key table d ∙ ground (arith, found)

  lookup-insert_self : (r : Reassembly) (table : Table) → lookup key (insert key r table) ≡ some r
  lookup-insert_self r table = lookup-insert key key r table ∙ ground (arith, pair_beq_iff key key)

  send_from :
      (reqs : List Arrival) (table : Table) (entry : Reassembly)
      → Distinct table
      → lookup key table ≡ some entry
      → 0 < entry.next_num
      → Numbered entry.next_num reqs
      → Timely entry.touched reqs
      → length entry.data_bytes + length (body_of reqs) ≤ max_block1_body
      → (send session leaf reqs table).0 ≡ answers entry.data_bytes reqs
  unfolding send answers append_block
  send_from [] table entry d found later num time fits = absurd num
  send_from ((now, req) ∷ []) table entry d found later (szx, num) time fits =
      rw
        (assemble_body-append now req _ (sweep_block1 now table) entry num
          (lookup-sweep now table entry d found time.0) later refl
          (omega (arith, length-append req.payload [])))
        refl
  send_from ((now, req) ∷ next ∷ rest) table entry d found later ((szx, num), nums) time fits =
      let entry' : Reassembly = record {
        data_bytes = entry.data_bytes ++ req.payload;
        next_num = entry.next_num + 1;
        touched = now;
      } in
      let b : Block = record { num = entry.next_num; more = true; szx = szx } in
      let swept = sweep_block1 now table in
      let room = length-append req.payload (body_of (next ∷ rest)) in
      rw
        (
          assemble_body-append now req _ swept entry num
              (lookup-sweep now table entry d found time.0) later refl (omega (arith, room)),
          num,
        )
        (ap (◌∷◌ (interim (continue_reply (some b) req))) (
          send_from (next ∷ rest) (insert key entry' swept) entry'
            (insert-Distinct key entry' swept
              (unfold sweep_block1 in retain-Distinct (is_fresh now) table d))
            (lookup-insert_self entry' swept) (omega arith) nums time.1
            (omega (arith, room, length-append entry.data_bytes req.payload))))

  start_upload-fresh :
      (now : ℕ) (table : Table)
      → length table < max_block1_entries
      → start_upload now key table
        ≡ some (insert key (record { data_bytes = []; next_num = 0; touched = now }) table)
  unfolding start_upload
  start_upload-fresh now table room = ground arith

  -- Block 0 starts the upload afresh, whatever was there.
  assemble_body-first :
      (now : ℕ) (req : Message) (b : Block) (table : Table)
      → block_of req block1 ≡ some b
      → b.num ≡ 0
      → length table < max_block1_entries
      → length req.payload ≤ max_block1_body
      → let fresh : Reassembly = record { data_bytes = []; next_num = 0; touched = now } in
        assemble_body now req session leaf table
        ≡ append_block now req b key (insert key fresh table) fresh
  unfolding assemble_body assemble_block
  assemble_body-first now req b table blockwise first room fits =
      let fresh : Reassembly = record { data_bytes = []; next_num = 0; touched = now } in
      ground (
        arith,
        start_upload-fresh now table room,
        lookup-insert_self fresh table,
        accept_block-append now req b (insert key fresh table) fresh,
      )

-- An upload whose blocks arrive in order, none 90 seconds or more after the one before, of at most
-- 64 KiB together, into a table with room: every block but the last is answered with 2.31 Continue
-- and its own Block1 option, and the last completes exactly the concatenation of the payloads.
pub upload :
    (session : DeviceSession) (leaf : List ℕ) (now : ℕ) (req : Message) (rest : List Arrival)
    (table : Table)
    → Distinct table
    → length table < max_block1_entries
    → Numbered 0 ((now, req) ∷ rest)
    → Timely now rest
    → length (body_of ((now, req) ∷ rest)) ≤ max_block1_body
    → (send session leaf ((now, req) ∷ rest) table).0 ≡ answers [] ((now, req) ∷ rest)
unfolding send answers append_block sweep_block1
upload session leaf now req [] table d room (szx, num) time fits =
    rw
      (assemble_body-first session leaf now req (record { num = 0; more = false; szx = szx })
        (sweep_block1 now table) num refl (omega (arith, length-retain-le (is_fresh now) table))
        (omega (arith, length-append req.payload [])))
      refl
upload session leaf now req (next ∷ rest) table d room ((szx, num), nums) time fits =
    let b : Block = record { num = 0; more = true; szx = szx } in
    let fresh : Reassembly = record { data_bytes = []; next_num = 0; touched = now } in
    let entry : Reassembly = record { data_bytes = req.payload; next_num = 1; touched = now } in
    let swept = sweep_block1 now table in
    let begun = insert (session.conn_id, leaf) fresh swept in
    let size = length-append req.payload (body_of (next ∷ rest)) in
    let begun_distinct =
      insert-Distinct (session.conn_id, leaf) fresh swept
        (retain-Distinct (is_fresh now) table d) in
    rw
      (
        assemble_body-first session leaf now req b swept num refl
            (omega (arith, length-retain-le (is_fresh now) table)) (omega (arith, size)),
        num,
      )
      (ap (◌∷◌ (interim (continue_reply (some b) req))) (
        send_from session leaf (next ∷ rest) (insert (session.conn_id, leaf) entry begun) entry
          (insert-Distinct (session.conn_id, leaf) entry begun begun_distinct)
          (lookup-insert_self session leaf entry begun) (omega arith) nums time
          (omega (arith, size))))
