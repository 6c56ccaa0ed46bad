-- ===== src/Balloc/Client.antt =====
-- Clients of the block allocator of balloc.c: any sequence of `balloc_get` and of `balloc_free` of
-- blocks that are held.
use missy_micro.Common.{ℕ, zero, suc, ◌*◌, ◌/◌, ◌<◌, ◌≡◌, ◌≢◌}
use missy_micro.Common.{ap, sym, arith, some, List, [], ◌∷◌, get_elem?}
use missy_micro.Balloc.{Balloc, balloc_get, balloc_free}
use missy_micro.Balloc.Bitmap.{used}
use missy_micro.Balloc.Count.{IsAccounted}
use missy_micro.Balloc.Alloc.{IsGranted, granted-ne_zero, balloc_get_lem, balloc_free_lem}

-- The allocator and the addresses that its clients hold.
pub record Client : Type 0 where
  pub alloc : Balloc
  pub held : List ℕ

-- The list without its element at an index.
pub remove : ℕ → List ℕ → List ℕ
remove k [] = []
remove zero (p ∷ ps) = ps
remove (suc k) (p ∷ ps) = p ∷ remove k ps

pub data Step (c : Client) : Client → Type 0 where
  take :
      0 < c.alloc.free_blocks
      → Step c (record { alloc = (balloc_get c.alloc).1; held = (balloc_get c.alloc).0 ∷ c.held })
  give :
      (k p : ℕ)
      → get_elem? c.held k ≡ some p
      → Step c (record { alloc = balloc_free c.alloc p; held = remove k c.held })

pub data Reach (c : Client) : Client → Type 0 where
  here : Reach c c
  next : {d e : Client} → Reach c d → Step d e → Reach c e

-- `p` is the address of a block of memory, not block 0, that is given out.
pub record IsHeld (s : Balloc) (p : ℕ) : Type 0 where
  pub aligned : p ≡ p / 4096 * 4096
  pub nonzero : p ≢ 0
  pub inside : p / 4096 < s.total_blocks
  pub taken : used s.m_bmp (p / 4096) ≡ 1

abbrev pub AllHeld : Balloc → List ℕ → Type 0
AllHeld s [] = Unit
AllHeld s (p ∷ ps) = IsHeld s p × AllHeld s ps

abbrev pub Fresh : ℕ → List ℕ → Type 0
Fresh q [] = Unit
Fresh q (p ∷ ps) = (q ≢ p) × Fresh q ps

abbrev pub Distinct : List ℕ → Type 0
Distinct [] = Unit
Distinct (p ∷ ps) = Fresh p ps × Distinct ps

-- The count is right, block 0 is reserved, and the blocks held are blocks of memory, given out and
-- distinct.
pub record IsSafe (c : Client) : Type 0 where
  pub accounted : IsAccounted c.alloc
  pub zero_used : used c.alloc.m_bmp 0 ≡ 1
  pub owned : AllHeld c.alloc c.held
  pub distinct : Distinct c.held

total-balloc_free : (s : Balloc) (p : ℕ) → (balloc_free s p).total_blocks ≡ s.total_blocks
unfolding balloc_free
total-balloc_free s p = ground arith

-- An address that is held is one of the list's.
AllHeld-get :
    (s : Balloc) (ps : List ℕ) (k p : ℕ) → AllHeld s ps → get_elem? ps k ≡ some p → IsHeld s p
AllHeld-get s [] k p h e = cc
AllHeld-get s (q ∷ ps) zero p h e = let same : q ≡ p = cc in rw same at (h.0)
AllHeld-get s (q ∷ ps) (suc k) p h e = AllHeld-get s ps k p h.1 e

-- A block just granted is held by nobody else.
Fresh-granted :
    (s t : Balloc) (b p : ℕ) (ps : List ℕ) → IsGranted s b p t → AllHeld s ps → Fresh p ps
Fresh-granted s t b p [] g h = tt
Fresh-granted s t b p (q ∷ ps) g h = (other, Fresh-granted s t b p ps g h.1)
  where
    other : p ≢ q
    other e =
        let block : q / 4096 ≡ b = omega (arith, g.address) in
        omega (arith, h.0.taken, g.first.free, ap (used s.m_bmp) block)

granted-IsHeld : (s t : Balloc) (b p : ℕ) → used s.m_bmp 0 ≡ 1 → IsGranted s b p t → IsHeld t p
granted-IsHeld s t b p zero_used g = record {
  aligned = omega (arith, g.address);
  nonzero = (granted-ne_zero s t b p zero_used g).1;
  inside = omega (arith, g.address, g.first.below, g.total);
  taken = rw block (ground (arith, g.digits b));
}
  where
    block : p / 4096 ≡ b
    block = omega (arith, g.address)

AllHeld-granted :
    (s t : Balloc) (b p : ℕ) (ps : List ℕ) → IsGranted s b p t → AllHeld s ps → AllHeld t ps
AllHeld-granted s t b p [] g h = tt
AllHeld-granted s t b p (q ∷ ps) g h = (kept, AllHeld-granted s t b p ps g h.1)
  where
    kept : IsHeld t q
    kept = record {
      aligned = h.0.aligned;
      nonzero = h.0.nonzero;
      inside = omega (arith, h.0.inside, g.total);
      taken = ground (arith, g.digits (q / 4096), h.0.taken);
    }

-- Freeing another block keeps a block held.
IsHeld-free :
    (s : Balloc) (p q : ℕ)
    → IsAccounted s
    → IsHeld s p
    → IsHeld s q
    → q ≢ p
    → IsHeld (balloc_free s p) q
IsHeld-free s p q a hp hq ne = record {
  aligned = hq.aligned;
  nonzero = hq.nonzero;
  inside = omega (arith, hq.inside, total-balloc_free s p);
  taken = ground (
    arith,
    (balloc_free_lem s p a hp.nonzero hp.inside hp.taken).0 (q / 4096),
    hq.taken,
    hp.aligned,
    hq.aligned,
  );
}

AllHeld-free :
    (s : Balloc) (p : ℕ) (ps : List ℕ)
    → IsAccounted s
    → IsHeld s p
    → AllHeld s ps
    → Fresh p ps
    → AllHeld (balloc_free s p) ps
AllHeld-free s p [] a hp h f = tt
AllHeld-free s p (q ∷ ps) a hp h f =
    (IsHeld-free s p q a hp h.0 (λ e. f.0 (sym e)), AllHeld-free s p ps a hp h.1 f.1)

-- What is left of a list of distinct addresses does not hold the one taken out.
module _ (s : Balloc) where
  AllHeld-remove : (k : ℕ) (ps : List ℕ) → AllHeld s ps → AllHeld s (remove k ps)
  unfolding remove
  AllHeld-remove k [] h = tt
  AllHeld-remove zero (p ∷ ps) h = h.1
  AllHeld-remove (suc k) (p ∷ ps) h = (h.0, AllHeld-remove k ps h.1)

Fresh-remove : (k q : ℕ) (ps : List ℕ) → Fresh q ps → Fresh q (remove k ps)
unfolding remove
Fresh-remove k q [] h = tt
Fresh-remove zero q (p ∷ ps) h = h.1
Fresh-remove (suc k) q (p ∷ ps) h = (h.0, Fresh-remove k q ps h.1)

Distinct-remove : (k : ℕ) (ps : List ℕ) → Distinct ps → Distinct (remove k ps)
unfolding remove
Distinct-remove k [] h = tt
Distinct-remove zero (p ∷ ps) h = h.1
Distinct-remove (suc k) (p ∷ ps) h = (Fresh-remove k p ps h.0, Distinct-remove k ps h.1)

Fresh-ne : (k q : ℕ) (ps : List ℕ) {p : ℕ} → Fresh q ps → get_elem? ps k ≡ some p → q ≢ p
Fresh-ne k q [] h e = cc
Fresh-ne zero q (r ∷ ps) h e = ground (arith, h.0)
Fresh-ne (suc k) q (r ∷ ps) h e = Fresh-ne k q ps h.1 e

Fresh-removed :
    (k p : ℕ) (ps : List ℕ) → Distinct ps → get_elem? ps k ≡ some p → Fresh p (remove k ps)
unfolding remove
Fresh-removed k p [] d e = tt
Fresh-removed zero p (q ∷ ps) d e = let same : q ≡ p = cc in rw same at (d.0)
Fresh-removed (suc k) p (q ∷ ps) d e =
    (λ s. Fresh-ne k q ps d.0 e (sym s), Fresh-removed k p ps d.1 e)

pub Step-IsSafe : {c d : Client} → Step c d → IsSafe c → IsSafe d
Step-IsSafe {c} (take some_free) s =
    let (b, g) = balloc_get_lem c.alloc s.accounted s.zero_used some_free in
    record {
      accounted = g.accounted;
      zero_used = ground (arith, g.digits 0, s.zero_used);
      owned = (
        granted-IsHeld c.alloc (balloc_get c.alloc).1 b (balloc_get c.alloc).0 s.zero_used g,
        AllHeld-granted c.alloc (balloc_get c.alloc).1 b (balloc_get c.alloc).0 c.held g s.owned,
      );
      distinct = (
        Fresh-granted c.alloc (balloc_get c.alloc).1 b (balloc_get c.alloc).0 c.held g s.owned,
        s.distinct,
      );
    }
Step-IsSafe {c} (give k p e) s =
    let h = AllHeld-get c.alloc c.held k p s.owned e in
    let (digits, count, a) = balloc_free_lem c.alloc p s.accounted h.nonzero h.inside h.taken in
    record {
      accounted = a;
      zero_used = ground (arith, digits 0, s.zero_used, h.aligned, h.nonzero);
      owned =
          AllHeld-free c.alloc p (remove k c.held) s.accounted h
            (AllHeld-remove c.alloc k c.held s.owned) (Fresh-removed k p c.held s.distinct e);
      distinct = Distinct-remove k c.held s.distinct;
    }

-- From a safe state, whatever sequence of `balloc_get` while blocks are free and of
-- `balloc_free` of held blocks clients make, the count of free blocks stays exact, and the
-- addresses held are those of distinct blocks of memory, none of them block 0, all marked as
-- given out.
pub Reach-IsSafe : {c d : Client} → IsSafe c → Reach c d → IsSafe d
Reach-IsSafe s here = s
Reach-IsSafe s (next r st) = Step-IsSafe st (Reach-IsSafe s r)
