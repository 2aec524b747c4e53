-- ===== src/Device/Tests.antt =====
-- Runs of the device table.
use sp25_ece391_group.Base.{
  ℕ, ◌≡◌, refl, Option, none, some, List, [], ◌∷◌, pos, ok, err, enotsup, enodev, einval,
}
use sp25_ece391_group.Exec.{Exec}
use sp25_ece391_group.Strings.{strcmp, strcmp_from, strtoul, strtoul_signed, scan}
use sp25_ece391_group.Device.{
  Devtab, equals_zero, same_name, is_instno, keep_slot, add_device, or_panic, register_device,
  find_device, call_open, open_found, open_device, last_number, at_end, cut_number, cut_spec,
  parse_device_spec,
}
use sp25_ece391_group.Device.Find.{Registered, register_device-Registered}

-- "uart".
abbrev uart : List ℕ
uart = 117 ∷ 97 ∷ 114 ∷ 116 ∷ []

abbrev driver : Option (ℕ → Exec ℕ ℕ)
driver = some (λ aux s. (ok aux, s))

-- A table with one device.
abbrev one : Devtab ℕ ℕ
one = some (record { name = uart; openfn = none; aux = 5 }) ∷ none ∷ []

second : register_device (some uart) driver 7 one ≡ (
  ok 1,
  some (record { name = uart; openfn = none; aux = 5 })
      ∷ some (record { name = uart; openfn = driver; aux = 7 })
      ∷ [],
)
unfolding register_device add_device or_panic keep_slot same_name equals_zero strcmp strcmp_from
second = refl

unsupported : open_device one uart (pos 0) 3 ≡ (err enotsup, 3)
unfolding open_device find_device same_name equals_zero strcmp strcmp_from is_instno open_found
    call_open sp25_ece391_group.Exec.fail
unsupported = refl

missing : open_device one uart (pos 1) 3 ≡ (err enodev, 3)
unfolding open_device find_device same_name equals_zero strcmp strcmp_from is_instno open_found
    sp25_ece391_group.Exec.fail
missing = refl

-- "u2a10" is device 10 of the name "u2a".
spec : parse_device_spec (117 ∷ 50 ∷ 97 ∷ 49 ∷ 48 ∷ []) ≡ (ok 10, 117 ∷ 50 ∷ 97 ∷ [])
unfolding parse_device_spec last_number cut_spec cut_number at_end strtoul strtoul_signed scan
spec = refl

no_number : parse_device_spec uart ≡ (err einval, uart)
unfolding parse_device_spec last_number cut_spec sp25_ece391_group.Exec.fail
no_number = refl

register_device-Registered_example :
    Registered uart driver 7 one (register_device (some uart) driver 7 one)
register_device-Registered_example = register_device-Registered uart driver 7 one
