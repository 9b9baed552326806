-- ===== src/Seri/Write/Blocks.antt =====
-- The chain of blocks of luaclib-src/lua-seri.cpp: `seri` gives back all that was pushed.
use skynet.Base.{
  ◌%◌, ◌^◌, joined, joined-append, ℕ, zero, suc, ◌+◌, ◌-◌, ◌≤◌, ◌<◌, ◌≡◌, refl, sym, ap, ◌∙◌, arith,
  List, [], ◌∷◌, ◌++◌, length, take, drop, take-all, take-drop, length-take, length-drop,
  length-append, append_assoc, append-nil, leb, ◌==◌, ==_iff, Bool-cases, true, false, inl, inr,
}
use skynet.Seri.Write.{
  WriteBlock, wb_init, next_block, copy_in, push_rest, wb_push, copy_blocks, seri, block_size,
  Pushes,
}
use skynet.Seri.Pack.{push_all}

abbrev pub written : WriteBlock → List ℕ
written b = joined b.full ++ b.current

abbrev AllFull : List (List ℕ) → Type 0
AllFull [] = Unit {0}
AllFull (b ∷ bs) = (length b ≡ block_size) × AllFull bs

append-AllFull :
    (bs : List (List ℕ)) (b : List ℕ) → AllFull bs → length b ≡ block_size → AllFull (bs ++ b ∷ [])
append-AllFull [] b h e = (e, tt)
append-AllFull (x ∷ bs) b (p, h) e = (p, append-AllFull bs b h e)

record IsChain (b : WriteBlock) : Type 0 where
  pub blocks : AllFull b.full
  pub place : length b.current ≡ b.ptr
  pub room : b.ptr ≤ block_size
  pub total : b.len ≡ length (written b) % 2 ^ 32

copy_in-written :
    (b : WriteBlock) (buffer : List ℕ) → written (copy_in b buffer) ≡ written b ++ buffer
unfolding copy_in
copy_in-written b buffer = sym (append_assoc (joined b.full) b.current buffer)

copy_in-IsChain :
    (b : WriteBlock) (buffer : List ℕ)
    → IsChain b
    → b.ptr + length buffer ≤ block_size
    → IsChain (copy_in b buffer)
unfolding copy_in
copy_in-IsChain b buffer v le = record {
  blocks = v.blocks;
  place = length-append b.current buffer ∙ ap (λ n. n + length buffer) v.place;
  room = le;
  total =
      let size : (b.len + length buffer) % 2 ^ 32 ≡ length (written b ++ buffer) % 2 ^ 32 =
        omega (arith, v.total, length-append (written b) buffer) in
      size ∙ ap (λ l. length l % 2 ^ 32) (append_assoc (joined b.full) b.current buffer);
}

next_block-written : (b : WriteBlock) → written (next_block b) ≡ written b
unfolding next_block
next_block-written b =
    append-nil (joined (b.full ++ b.current ∷ []))
    ∙ joined-append b.full (b.current ∷ [])
    ∙ ap (λ l. joined b.full ++ l) (append-nil b.current)

next_block-IsChain : (b : WriteBlock) → IsChain b → b.ptr ≡ block_size → IsChain (next_block b)
unfolding next_block
next_block-IsChain b v e = record {
  blocks = append-AllFull b.full b.current v.blocks (v.place ∙ e);
  place = refl;
  room = omega arith;
  total = v.total ∙ ap (λ l. length l % 2 ^ 32) (sym (unfold next_block in next_block-written b));
}

-- `buffer` has come behind what was written.
abbrev Wrote : WriteBlock → List ℕ → WriteBlock → Type 0
Wrote b buffer b' = (written b' ≡ written b ++ buffer) × IsChain b'

push_rest-Wrote :
    (rounds : ℕ) (b : WriteBlock) (buffer : List ℕ)
    → IsChain b
    → b.ptr < block_size
    → length buffer < rounds
    → Wrote b buffer (push_rest rounds b buffer)
unfolding push_rest
push_rest-Wrote zero b buffer v room lt = absurd (omega arith)
push_rest-Wrote (suc rounds) b buffer v room lt =
    let copy = block_size - b.ptr in
    elim (Bool-cases (leb (length buffer) copy)) [
      | inl fits ↦
          rw fits (copy_in-written b buffer, copy_in-IsChain b buffer v (ground (arith, fits)))
      | inr more ↦
          let long : copy < length buffer = ground (arith, more) in
          let filled = copy_in b (take copy buffer) in
          let same : length (take copy buffer) ≡ copy = omega (arith, length-take copy buffer) in
          let v' = copy_in-IsChain b (take copy buffer) v (omega (arith, same)) in
          let at_end : filled.ptr ≡ block_size = unfold copy_in in omega (arith, same) in
          let (wrote, v'') =
            push_rest-Wrote rounds (next_block filled) (drop copy buffer)
              (next_block-IsChain filled v' at_end) (unfold next_block in omega arith)
              (omega (arith, length-drop copy buffer)) in
          let whole =
            wrote
            ∙ ap (λ l. l ++ drop copy buffer)
                (next_block-written filled ∙ copy_in-written b (take copy buffer))
            ∙ append_assoc (written b) (take copy buffer) (drop copy buffer)
            ∙ ap (λ l. written b ++ l) (take-drop copy buffer) in
          rw more (whole, v'')
    ]

wb_push-Wrote : (b : WriteBlock) (buffer : List ℕ) → IsChain b → Wrote b buffer (wb_push b buffer)
unfolding wb_push
wb_push-Wrote b buffer v = elim (Bool-cases (b.ptr == block_size)) [
  | inl full ↦
      let e = (==_iff b.ptr block_size).0 full in
      let (wrote, v') =
        push_rest-Wrote (suc (length buffer)) (next_block b) buffer (next_block-IsChain b v e)
          (unfold next_block in omega arith) (omega arith) in
      rw full (wrote ∙ ap (λ l. l ++ buffer) (next_block-written b), v')
  | inr open_block ↦ rw open_block (
      push_rest-Wrote (suc (length buffer)) b buffer v (ground (arith, open_block, v))
        (omega arith))
]

push_all-Wrote : (b : WriteBlock) (ps : Pushes) → IsChain b → Wrote b (joined ps) (push_all b ps)
unfolding push_all
push_all-Wrote b [] v = (sym (append-nil (written b)), v)
push_all-Wrote b (buffer ∷ ps) v =
    let (wrote, v') = wb_push-Wrote b buffer v in
    let (wrote', v'') = push_all-Wrote (wb_push b buffer) ps v' in
    (wrote' ∙ ap (λ l. l ++ joined ps) wrote ∙ append_assoc (written b) buffer (joined ps), v'')

copy_blocks_lem :
    (bs : List (List ℕ)) (current : List ℕ) (len : ℕ)
    → AllFull bs
    → length current ≤ block_size
    → len ≡ length (joined bs ++ current)
    → copy_blocks (bs ++ current ∷ []) len ≡ joined bs ++ current
unfolding copy_blocks
copy_blocks_lem [] [] len h le e = let zero_len : len ≡ 0 = omega (arith, e) in rw zero_len refl
copy_blocks_lem [] (x ∷ current) len h le e =
    let some_len : (len == 0) ≡ false = ground (arith, e) in
    elim (Bool-cases (leb block_size len)) [
      | inl full ↦ rw (some_len, full) (append-nil (x ∷ current))
      | inr part ↦ rw (some_len, part) (take-all len (x ∷ current) (omega (arith, e)))
    ]
copy_blocks_lem (b ∷ bs) current len (full, h) le e =
    let size = length-append b (joined bs ++ current) in
    let total : len ≡ block_size + length (joined bs ++ current) =
      e
      ∙ ap length (append_assoc b (joined bs) current)
      ∙ size
      ∙ ap (λ n. n + length (joined bs ++ current)) full in
    let some_len : (len == 0) ≡ false = ground (arith, total) in
    let whole : leb block_size len ≡ true = ground (arith, total) in
    let rest = copy_blocks_lem bs current (len - block_size) h le (omega (arith, total)) in
    rw (some_len, whole) (ap (λ l. b ++ l) rest ∙ sym (append_assoc b (joined bs) current))

-- Whatever buffers of together fewer than 2 ^ 31 bytes are pushed, `seri` returns their bytes, one buffer
-- after the other, across the ends of the blocks.
pub seri-push_all :
    (ps : Pushes) → length (joined ps) < 2 ^ 31 → seri (push_all wb_init ps) ≡ joined ps
unfolding seri wb_init
seri-push_all ps fits =
    let start : IsChain wb_init =
      unfold wb_init in record { blocks = tt; place = refl; room = omega arith; total = refl } in
    let (wrote, v) = push_all-Wrote wb_init ps start in
    let b = push_all wb_init ps in
    let total : b.len ≡ length (written b) = omega (arith, v.total, ap length wrote, fits) in
    let positive : leb (2 ^ 31) b.len ≡ false = ground (arith, total, ap length wrote, fits) in
    rw positive (copy_blocks_lem b.full b.current b.len v.blocks (omega (arith, v)) total ∙ wrote)
