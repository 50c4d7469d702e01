-- ===== src/Ipam/Controller/Exhaustion.antt =====
-- ReleaseBlocks of IPAMController (pkg/ipam/controller.go) gives no block back.
use coordino.Base.{ℕ, ◌≤◌, ◌≡◌, refl, ◌∙◌, false, some, List, [], ◌∷◌, arith, Bytes, err}
use coordino.Ipam.Controller.{
  BlockAssignment, IpamController, no_more_blocks, Call, assigns, secondary, releases, step, run,
  assign_block, assign_secondary_block, assign_next_block, release_blocks, take_block, blocks_of,
  total_blocks, is_block_available,
}

-- What no call changes: the number of blocks, and that passed indices stay passed.
record Grows (c d : IpamController) : Type 0 where
  total : total_blocks d ≡ total_blocks c
  index : c.next_block_index ≤ d.next_block_index

assign_next_block-Grows :
    (c : IpamController) (node : Bytes) (now : ℕ) → Grows c (assign_next_block c node now).0
unfolding assign_next_block take_block total_blocks
assign_next_block-Grows c node now = record { total = ground arith; index = ground arith }

assign_block-Grows :
    (c : IpamController) (node : Bytes) (now : ℕ) → Grows c (assign_block c node now).0
unfolding assign_block
assign_block-Grows c node now = first_block (blocks_of c node) refl
  where
    first_block :
        (bs : List BlockAssignment) → blocks_of c node ≡ bs → Grows c (assign_block c node now).0
    first_block [] e = rw (e, assign_block) (assign_next_block-Grows c node now)
    first_block (b ∷ bs) e = rw (e, assign_block) (record { total = refl; index = omega arith })

step-Grows : (c : IpamController) (x : ℕ × Call) → Grows c (step c x)
unfolding step assign_secondary_block release_blocks total_blocks
step-Grows c (now, assigns node) = assign_block-Grows c node now
step-Grows c (now, secondary node) = assign_next_block-Grows c node now
step-Grows c (now, releases node) = record { total = refl; index = omega arith }

run-Grows : (c : IpamController) (xs : List (ℕ × Call)) → Grows c (run c xs)
unfolding run
run-Grows c [] = record { total = refl; index = omega arith }
run-Grows c (x ∷ xs) =
    let one = step-Grows c x in
    let more = run-Grows (step c x) xs in
    record { total = more.total ∙ one.total; index = omega (arith, one.index, more.index) }

-- Once the next index has reached the number of blocks, no calls, ReleaseBlocks included, make a
-- block available again, and a further AssignSecondaryBlock is refused and changes nothing.
pub exhausted_forever :
    (c : IpamController) (xs : List (ℕ × Call)) (total : ℕ) (node : Bytes) (now : ℕ)
    → total_blocks c ≡ some total
    → total ≤ c.next_block_index
    → (is_block_available (run c xs) ≡ some false)
      × (assign_secondary_block (run c xs) node now ≡ (run c xs, err no_more_blocks))
unfolding is_block_available assign_secondary_block assign_next_block
exhausted_forever c xs total node now t h =
    let g = run-Grows c xs in
    let e : total_blocks (run c xs) ≡ some total = g.total ∙ t in
    let passed : total ≤ (run c xs).next_block_index = omega (arith, g.index) in
    (rw (e, is_block_available) (ground arith), rw (e, assign_next_block) (ground arith))
