-- ===== src/Paging/Spaces/Copy.antt =====
-- The copy of the directory into a new one, through the temporary page.
use missy_micro.Common.{ℕ, zero, suc, ◌+◌, ◌*◌, ◌/◌, ◌%◌, ◌^◌, ◌≤◌, ◌<◌, ◌≡◌, ◌≢◌, refl, arith}
use missy_micro.Common.{if◌then◌else◌, leb, ltb, ◌&&◌, Option, some, ◌∙◌}
use missy_micro.Paging.{Paging, Memory, Status, table_frame, write_frame}
use missy_micro.Paging.Walk.{translate, IsPaged, IsNoTable}
use missy_micro.Paging.Spaces.{load_word, store_word, copy_words, unless_failed}
use missy_micro.Paging.Spaces.{temp_pdir_virtual, pdir_window}

-- `w` is `v` but for frame `f`.
pub record IsBut (v w : Paging) (f : ℕ) : Type 0 where
  pub same_root : w.pdbr ≡ v.pdbr
  pub same_physical : w.pdir_physical ≡ v.pdir_physical
  pub elsewhere : (g j : ℕ) → g ≢ f → w.frames g j ≡ v.frames g j

-- A frame that is no table does not matter to the walk.
pub translate-IsBut :
    (m : Memory) (w : Paging) (f a : ℕ)
    → IsPaged m
    → IsNoTable m f
    → IsBut m.paging w f
    → a < 2 ^ 32
    → translate w a ≡ translate m.paging a
unfolding translate
translate-IsBut m w f a p unused but fits = ground (
  arith,
  but.same_root,
  unused 1023 (omega arith) p.self_present,
  p.self_frame,
  unused (a / 0x400000) (omega arith),
  but.elsewhere (m.paging.pdbr / 4096) (a / 0x400000),
  but.elsewhere (table_frame m.paging (a / 0x400000)) (a / 0x1000 % 1024),
)

-- The temporary page, mapped to frame `f`.
abbrev pub IsTemporary : Paging → ℕ → Type 0
IsTemporary v f = (a : ℕ) → a / 4096 ≡ 0xcffff → translate v a ≡ some (f * 4096 + a % 4096)

-- The directory seen through its last entry.
window_lem :
    (m : Memory) (i : ℕ)
    → IsPaged m
    → i < 1024
    → translate m.paging (pdir_window + 4 * i) ≡ some (m.paging.pdbr / 4096 * 4096 + 4 * i)
unfolding translate
window_lem m i p lt =
    let d : (pdir_window + 4 * i) / 0x400000 ≡ 1023 = omega arith in
    let t : (pdir_window + 4 * i) / 0x1000 % 1024 ≡ 1023 = omega arith in
    let o : (pdir_window + 4 * i) % 4096 ≡ 4 * i = omega arith in
    rw (d, t, o, p.self_frame) (ground (arith, p.self_present, p.self_frame))

pub load_word-at :
    (v : Paging) (a q : ℕ)
    → translate v a ≡ some q
    → load_word v a ≡ some (v.frames (q / 4096) (q % 4096 / 4))
unfolding load_word
load_word-at v a q e = ground (arith, e)

pub store_word-at :
    (v : Paging) (a q x : ℕ)
    → translate v a ≡ some q
    → store_word v a x ≡ some (write_frame v (q / 4096) (q % 4096 / 4) x)
unfolding store_word
store_word-at v a q x e = ground (arith, e)

module _ (m : Memory) (f : ℕ) (p : IsPaged m) (unused : IsNoTable m f)
    (temp : IsTemporary m.paging f) where
  abbrev root : ℕ
  root = m.paging.pdbr / 4096

  load_window :
      (w : Paging) (i : ℕ)
      → IsBut m.paging w f
      → i < 1024
      → load_word w (pdir_window + 4 * i) ≡ some (m.paging.frames root i)
  load_window w i but lt =
      let q = root * 4096 + 4 * i in
      let r : q / 4096 ≡ root = omega arith in
      let o : q % 4096 / 4 ≡ i = omega arith in
      let other : root ≢ f =
        ground (arith, unused 1023 (omega arith) p.self_present, p.self_frame) in
      let walk : translate w (pdir_window + 4 * i) ≡ some q =
        translate-IsBut m w f (pdir_window + 4 * i) p unused but (omega arith)
        ∙ window_lem m i p lt in
      load_word-at w (pdir_window + 4 * i) q walk ∙ rw (r, o, but.elsewhere root i other) refl

  store_temp :
      (w : Paging) (i x : ℕ)
      → IsBut m.paging w f
      → i < 1024
      → store_word w (temp_pdir_virtual + 4 * i) x ≡ some (write_frame w f i x)
  store_temp w i x but lt =
      let a = temp_pdir_virtual + 4 * i in
      let q = f * 4096 + a % 4096 in
      let r : q / 4096 ≡ f = omega arith in
      let o : q % 4096 / 4 ≡ i = omega arith in
      let walk : translate w a ≡ some q =
        translate-IsBut m w f a p unused but (omega arith) ∙ temp a (omega arith) in
      store_word-at w a q x walk ∙ rw (r, o) refl

  -- The words copied come from the directory; nothing else changes.
  pub copy_words_lem :
      (w : Paging) (i left : ℕ)
      → IsBut m.paging w f
      → i + left ≤ 1024
      → (u : Paging) × (copy_words w i left ≡ some u)
        × IsBut m.paging u f
        × ((j : ℕ)
            → u.frames f j
              ≡ (if leb i j && ltb j (i + left) then m.paging.frames root j else w.frames f j))
  unfolding copy_words
  copy_words_lem w i zero but le = (w, refl, but, λ j. ground arith)
  copy_words_lem w i (suc left) but le =
      let next = write_frame w f i (m.paging.frames root i) in
      let kept : IsBut m.paging next f = record {
        same_root = but.same_root;
        same_physical = but.same_physical;
        elsewhere = λ g j ne. ground (arith, but.elsewhere g j ne);
      } in
      let (u, run, last, words) = copy_words_lem next (i + 1) left kept (omega arith) in
      rw
        (
          load_window w i but (omega arith),
          store_temp w i (m.paging.frames root i) but (omega arith),
          run,
        )
        (u, refl, last, λ j. ground (arith, words j))

pub unless_failed-ok :
    (r : Status × Memory) (next : Memory → Option (Status × Memory))
    → r.0 ≡ Status.ok
    → unless_failed r next ≡ next r.1
unfolding unless_failed
unless_failed-ok (Status.ok, m) next e = refl
unless_failed-ok (Status.failed, m) next e = absurd (ground arith)
