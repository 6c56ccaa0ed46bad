-- ===== src/Shell/Dispatch.antt =====
-- Which command a line runs.
use missy_micro.Common.{ℕ, suc, ◌+◌, min, ◌≡◌, ◌<◌, refl, arith, ◌⊎◌, inl, inr}
use missy_micro.Common.{Bool-cases, none, some, ◌==◌, ==_iff, List, [], ◌∷◌}
use missy_micro.Libc.{strncmp}
use missy_micro.Libc.Blocks.{Agree}
use missy_micro.Libc.Strings.{IsString, strlen_lem}
use missy_micro.Libc.Compare.{IsBytes, strncmp_lem}
use missy_micro.Shell.{Command, KtermBuiltin, find_builtin}

-- The line is a name, with the zero byte.
abbrev pub Names : (ℕ → ℕ) → ℕ → ℕ → KtermBuiltin → Type 0
Names m cmdstr k b = Agree m cmdstr b.commandtxt (suc k)

abbrev pub NamesNone : (ℕ → ℕ) → ℕ → ℕ → List KtermBuiltin → Type 0
NamesNone m cmdstr k [] = Unit
NamesNone m cmdstr k (b ∷ bs) = (Names m cmdstr k b → ⊥) × NamesNone m cmdstr k bs

-- The first command of the list that the line names.
pub data Chosen (m : ℕ → ℕ) (cmdstr k : ℕ) : List KtermBuiltin → Command → Type 0 where
  here :
      (b : KtermBuiltin) (bs : List KtermBuiltin)
      → Names m cmdstr k b
      → Chosen m cmdstr k (b ∷ bs) b.commandcode
  later :
      (b : KtermBuiltin) (bs : List KtermBuiltin) (c : Command)
      → (Names m cmdstr k b → ⊥)
      → Chosen m cmdstr k bs c
      → Chosen m cmdstr k (b ∷ bs) c

-- In a memory of bytes, with a line of k bytes and fuel above k, the search ends. It finds the first
-- command whose name is the whole line, and none where the line is no name.
pub find_builtin_lem :
    (m : ℕ → ℕ) (cmdstr k fuel : ℕ) (bs : List KtermBuiltin)
    → IsBytes m
    → IsString m cmdstr k
    → k < fuel
    → (NamesNone m cmdstr k bs × (find_builtin m cmdstr fuel bs ≡ some none))
      ⊎ ((c : Command) × Chosen m cmdstr k bs c × (find_builtin m cmdstr fuel bs ≡ some (some c)))
unfolding find_builtin
find_builtin_lem m cmdstr k fuel [] bytes string lt = inl (tt, refl)
find_builtin_lem m cmdstr k fuel (b ∷ bs) bytes string lt =
    let measured = strlen_lem m cmdstr k fuel string lt in
    let whole : min (k + 1) (suc k) ≡ suc k = omega arith in
    let compared = strncmp_lem m cmdstr b.commandtxt k (k + 1) bytes string in
    let to : strncmp m cmdstr b.commandtxt (k + 1) ≡ 0 → Names m cmdstr k b =
      λ e. rw whole at (compared.0 e) in
    let from : Names m cmdstr k b → strncmp m cmdstr b.commandtxt (k + 1) ≡ 0 =
      λ g. compared.1 (rw whole g) in
    elim (Bool-cases (strncmp m cmdstr b.commandtxt (k + 1) == 0)) [
      | inl hit ↦ inr (
        b.commandcode,
        Chosen.here b bs (to ((==_iff _ _).0 hit)),
        rw (find_builtin, measured, hit) refl,
      )
      | inr miss ↦
          let no_hit : Names m cmdstr k b → ⊥ =
            λ g. ground (arith, (==_iff (strncmp m cmdstr b.commandtxt (k + 1)) 0).1 (from g)) in
          elim (find_builtin_lem m cmdstr k fuel bs bytes string lt) [
            | inl (missing, e) ↦ inl ((no_hit, missing), rw (find_builtin, measured, miss) e)
            | inr (c, chosen, e) ↦
                inr (c, Chosen.later b bs c no_hit chosen, rw (find_builtin, measured, miss) e)
          ]
    ]
