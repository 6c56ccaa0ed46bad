-- ===== src/Acpi/Search.antt =====
-- Which descriptors `acpi_locate_rsdp` finds.
use missy_micro.Common.{ℕ, zero, suc, ◌+◌, ◌*◌, ◌≡◌, ◌<◌, refl, ap, ◌∙◌, arith, ◌⊎◌}
use missy_micro.Common.{◌↔◌, inl, inr}
use missy_micro.Common.{Bool-cases, none, some, ◌==◌, ==_iff}
use missy_micro.Libc.{strncmp}
use missy_micro.Libc.Blocks.{Agree}
use missy_micro.Libc.Strings.{IsString}
use missy_micro.Libc.Compare.{IsBytes, strncmp_lem}
use missy_micro.Multiboot.Structs.{load16}
use missy_micro.Terminal.{Terminal, terminal_puts}
use missy_micro.Acpi.{scan_rsdp, acpi_locate_rsdp, found_in_edba, found_in_upper}

abbrev pub NoneBelow : (ℕ → ℕ) → ℕ → ℕ → ℕ → Type 0
NoneBelow m sig p n = (i : ℕ) → i < n → Agree m sig (p + 16 * i) 8 → ⊥

-- The first of `left` places that agrees with eight bytes of the signature.
pub record IsFirst (m : ℕ → ℕ) (sig p left i : ℕ) : Type 0 where
  pub below : i < left
  pub agrees : Agree m sig (p + 16 * i) 8
  pub first : NoneBelow m sig p i

compared :
    (m : ℕ → ℕ) (sig p : ℕ)
    → IsBytes m
    → IsString m sig 8
    → (strncmp m sig p 8 ≡ 0) ↔ Agree m sig p 8
compared m sig p bytes string = strncmp_lem m sig p 8 8 bytes string

none-cons :
    (m : ℕ → ℕ) (sig p n : ℕ)
    → (Agree m sig p 8 → ⊥)
    → NoneBelow m sig (p + 16) n
    → NoneBelow m sig p (suc n)
none-cons m sig p n here after zero lt = let at_p : p + 16 * 0 ≡ p = omega arith in rw at_p here
none-cons m sig p n here after (suc i) lt =
    let there : p + 16 * suc i ≡ p + 16 + 16 * i = omega arith in rw there (after i (omega arith))

scan_rsdp_lem :
    (m : ℕ → ℕ) (sig p left : ℕ)
    → IsBytes m
    → IsString m sig 8
    → (NoneBelow m sig p left × (scan_rsdp m sig p left ≡ none))
      ⊎ ((i : ℕ) × IsFirst m sig p left i × (scan_rsdp m sig p left ≡ some (p + 16 * i)))
unfolding scan_rsdp
scan_rsdp_lem m sig p zero bytes string = inl (λ i q. absurd (omega arith), refl)
scan_rsdp_lem m sig p (suc left) bytes string =
    let (to, from) = compared m sig p bytes string in
    elim (Bool-cases (strncmp m sig p 8 == 0)) [
      | inl hit ↦
          let here : p ≡ p + 16 * 0 = omega arith in
          let agrees : Agree m sig p 8 = to ((==_iff _ _).0 hit) in
          inr (
            0,
            record {
              below = omega arith;
              agrees = rw here at agrees;
              first = λ i q. absurd (omega arith);
            },
            rw (scan_rsdp, hit) (ap some here),
          )
      | inr miss ↦
          let no_hit : Agree m sig p 8 → ⊥ =
            λ g. ground (arith, (==_iff (strncmp m sig p 8) 0).1 (from g)) in
          elim (scan_rsdp_lem m sig (p + 16) left bytes string) [
            | inl (missing, e) ↦ inl (none-cons m sig p left no_hit missing, rw (scan_rsdp, miss) e)
            | inr (i, f, e) ↦
                let there : p + 16 + 16 * i ≡ p + 16 * suc i = omega arith in
                inr (
                  suc i,
                  record {
                    below = omega (arith, f.below);
                    agrees = rw there at f.agrees;
                    first = none-cons m sig p i no_hit f.first;
                  },
                  rw (scan_rsdp, miss) (e ∙ ap some there),
                )
          ]
    ]

-- Where the search ends: at the first place of the first range, at the first place of the second one
-- if there is none in the first, or nowhere.
pub data Found (m : ℕ → ℕ) (sig : ℕ) : ℕ → Type 0 where
  in_edba :
      (i : ℕ)
      → IsFirst m sig (load16 m 0x40e * 16) 64 i
      → Found m sig (load16 m 0x40e * 16 + 16 * i)
  in_upper :
      (i : ℕ)
      → NoneBelow m sig (load16 m 0x40e * 16) 64
      → IsFirst m sig 0xa0000 24576 i
      → Found m sig (0xa0000 + 16 * i)
  nowhere : NoneBelow m sig (load16 m 0x40e * 16) 64 → NoneBelow m sig 0xa0000 24576 → Found m sig 0

search_upper :
    (m : ℕ → ℕ) (sig : ℕ) (t : Terminal)
    → IsBytes m
    → IsString m sig 8
    → NoneBelow m sig (load16 m 0x40e * 16) 64
    → scan_rsdp m sig (load16 m 0x40e * 16) 64 ≡ none
    → (p : ℕ) × (u : Terminal) × (acpi_locate_rsdp m sig t ≡ (p, u)) × Found m sig p
unfolding acpi_locate_rsdp
search_upper m sig t bytes string missing e =
    elim (scan_rsdp_lem m sig 0xa0000 24576 bytes string) [
      | inl (none_there, e') ↦
          (0, t, rw (acpi_locate_rsdp, e, e') refl, Found.nowhere missing none_there)
      | inr (i, f, e') ↦ (
        0xa0000 + 16 * i,
        terminal_puts t found_in_upper,
        rw (acpi_locate_rsdp, e, e') refl,
        Found.in_upper i missing f,
      )
    ]

-- In a memory of bytes with a signature of eight bytes at sig, `acpi_locate_rsdp` ends and
-- returns the first of the 64 places in the EBDA, or else of the 24576 from 0xa0000 on, where
-- the eight bytes of the signature stand, and NULL if there is none.
pub acpi_locate_rsdp_lem :
    (m : ℕ → ℕ) (sig : ℕ) (t : Terminal)
    → IsBytes m
    → IsString m sig 8
    → (p : ℕ) × (u : Terminal) × (acpi_locate_rsdp m sig t ≡ (p, u)) × Found m sig p
unfolding acpi_locate_rsdp
acpi_locate_rsdp_lem m sig t bytes string =
    elim (scan_rsdp_lem m sig (load16 m 0x40e * 16) 64 bytes string) [
      | inl (missing, e) ↦ search_upper m sig t bytes string missing e
      | inr (i, f, e) ↦ (
        load16 m 0x40e * 16 + 16 * i,
        terminal_puts t found_in_edba,
        rw (acpi_locate_rsdp, e) refl,
        Found.in_edba i f,
      )
    ]
