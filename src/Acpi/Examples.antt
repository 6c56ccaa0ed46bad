-- ===== src/Acpi/Examples.antt =====
-- The results about acpi.c with the signature at 16, and a descriptor at 32 whose checksum byte is 7.
use missy_micro.Common.{ℕ, ◌-◌, ◌≡◌, refl, arith, ◌==◌, if◌then◌else◌, ltb, []}
use missy_micro.Libc.Strings.{IsString}
use missy_micro.Libc.Compare.{IsBytes}
use missy_micro.Terminal.{Terminal}
use missy_micro.Acpi.{acpi_locate_rsdp}
use missy_micro.Acpi.Search.{Found, acpi_locate_rsdp_lem}

abbrev letter_of : ℕ → ℕ
letter_of i =
    if i == 0
    then 82
    else if i == 1
    then 83
    else if i == 2
    then 68
    else if i == 3
    then 32
    else if i == 4
    then 80
    else if i == 5
    then 84
    else if i == 6
    then 82
    else if i == 7
    then 32
    else 0

abbrev tables : ℕ → ℕ
tables i =
    if i == 40
    then 7
    else if ltb i 16
    then 0
    else if ltb i 32
    then letter_of (i - 16)
    else letter_of (i - 32)

tables-IsBytes : IsBytes tables
tables-IsBytes i = ground arith

signature : IsString tables 16 8
signature = record { ends = refl; nonzero = λ i lt e. ground arith }

abbrev screen : Terminal
screen = record { cur_x = 0; cur_y = 0; color_attrib = 15; video_memory = λ i. 0; sent = [] }

locate_example :
    (p : ℕ) × (u : Terminal) × (acpi_locate_rsdp tables 16 screen ≡ (p, u)) × Found tables 16 p
locate_example = acpi_locate_rsdp_lem tables 16 screen tables-IsBytes signature
