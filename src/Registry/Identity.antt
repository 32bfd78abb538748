-- ===== src/Registry/Identity.antt =====
-- The effective IDs of src/ThingSetRegistry.cpp: which nodes count as duplicates, and which bucket a
-- node is in.
use thingsetplusplus.Prelude.{ℕ, ◌+◌, ◌%◌, ◌^◌, ◌<◌, ◌≡◌, ◌≢◌, ◌↔◌, true, false, arith}
use thingsetplusplus.Node.{Node, record_member}
use thingsetplusplus.Registry.{calculate_id, effective_id, bucket_of}

-- Two members of records have the same effective ID exactly when they have the same ID and the IDs of
-- their records leave the same remainder by 255.
pub calculate_id-injective :
    (id parent id' parent' : ℕ)
    → id < 2 ^ 16
    → parent < 2 ^ 16
    → id' < 2 ^ 16
    → parent' < 2 ^ 16
    → (calculate_id id parent ≡ calculate_id id' parent')
      ↔ ((id ≡ id') × (parent % 255 ≡ parent' % 255))
unfolding calculate_id
calculate_id-injective id parent id' parent' h1 h2 h3 h4 = (λ e. omega arith, λ e. omega arith)

-- A member of a record never lies in the bucket in which its own ID is looked up.
pub effective_id-bucket :
    (n : Node)
    → n.id < 2 ^ 16
    → n.casts record_member ≡ true
    → bucket_of (effective_id n) ≢ bucket_of n.id
unfolding effective_id calculate_id
effective_id-bucket n h member = rw member (omega arith)

-- A member of a record whose ID is a multiple of 255 has the effective ID of any node outside records
-- whose ID is one higher, so that the two count as duplicates.
pub effective_id_clash :
    (n m : Node)
    → n.id < 2 ^ 16
    → n.parent_id < 2 ^ 16
    → n.casts record_member ≡ true
    → n.parent_id % 255 ≡ 0
    → m.casts record_member ≡ false
    → m.id ≡ n.id + 1
    → effective_id n ≡ effective_id m
unfolding effective_id calculate_id
effective_id_clash n m h1 h2 member zero_offset plain next = rw (member, plain) (omega arith)
