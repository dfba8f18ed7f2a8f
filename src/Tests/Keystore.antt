-- ===== src/Tests/Keystore.antt =====
-- Tests and instances for internal/keystore: a cipher is the key-encryption key beside the key.
use legant.Base.{
  ℕ, pos, ◌≡◌, refl, true, false, [], ◌∷◌, Option, none, some, arith, ◌==◌, string_eq, nat_eq, keep,
  if◌then◌else◌,
}
use legant.Base.Text.{join}
use legant.Base.Result.{ok}
use legant.Keystore.{
  Envelope, KeyRow, Key, Keystore, aad, insert_row, sort_rows, load, reload, active_kid,
  active_signer, public_of, verifier_keys, generate, bootstrap, open_keystore, retire, rotate,
  deactivate, prune, rewrap, rewrap_all, reencrypt, is_published,
}
use legant.Keystore.Rotated.{Rotated, rotate-Rotated}
use legant.Keystore.Rewrapped.{reencrypt-load}
use legant.Tests.Sample.{sample, sample_jwt}

abbrev unseal : ℕ → ℕ × ℕ → Option ℕ
unseal k c = if k == c.0 then some c.1 else none

unseal-sealed : (k p : ℕ) (c : ℕ × ℕ) → some (k, p) ≡ some c → unseal k c ≡ some p
unseal-sealed k p c h = ground (arith, h)

instance abbrev boxes : Envelope
boxes = record {
  EncKey = ℕ;
  Cipher = ℕ × ℕ;
  is_blank = λ k. k == 0;
  encrypt = λ k kid p. some (k, p);
  decrypt = λ k kid c. unseal k c;
  precedes = λ a b. false;
  decrypt-encrypt = λ k kid p c h. unseal-sealed k p c h;
}

unfoldable pub keys_run : Unit {0}
unfolding join aad insert_row sort_rows load reload active_kid active_signer public_of verifier_keys
    generate bootstrap open_keystore retire rotate deactivate prune rewrap rewrap_all reencrypt keep
keys_run = tt

abbrev first_row : KeyRow
first_row = record {
  id = "rk_a";
  private_key = (5, 77);
  for_signatures = true;
  active = true;
  created_at = 10;
  expires_at = none;
}

abbrev first_key : Key
first_key = record { id = "rk_a"; private = 77; created_at = 10; expires_at = none }

abbrev opened : Keystore
opened = record { overlap = pos 100; enc_key = 5; keys = first_key ∷ []; active = some first_key }

opens_with_first_key :
    open_keystore 5 (pos 100) [] 10 (some 77) (some "a") ≡ ok (opened, first_row ∷ [])
unfolding keys_run
opens_with_first_key = refl

abbrev second_row : KeyRow
second_row = record {
  id = "rk_b";
  private_key = (5, 88);
  for_signatures = true;
  active = true;
  created_at = 20;
  expires_at = none;
}

abbrev second_key : Key
second_key = record { id = "rk_b"; private = 88; created_at = 20; expires_at = none }

abbrev retired_row : KeyRow
retired_row = record first_row { expires_at = some 120 }

abbrev turned : Keystore
turned = record opened {
  keys = second_key ∷ record first_key { expires_at = some 120 } ∷ [];
  active = some second_key;
}

first_rotation :
    rotate opened (first_row ∷ []) 20 (some 88) (some "b")
    ≡ (second_row ∷ retired_row ∷ [], (turned, ok "rk_b"))
unfolding keys_run
first_rotation = refl

first_key_read : load 5 (sort_rows (keep is_published (first_row ∷ []))) ≡ some (first_key ∷ [])
unfolding keys_run
first_key_read = refl

rotate-Rotated_example : Rotated opened (first_row ∷ []) (some 88) turned "rk_b"
rotate-Rotated_example =
    rotate-Rotated opened (first_row ∷ []) 20 (some 88) (some "b") first_key_read (omega arith, tt)
      first_rotation

late_prune : prune turned (second_row ∷ retired_row ∷ []) 121 ≡ (
  second_row ∷ record retired_row { active = false } ∷ [],
  (record turned { keys = second_key ∷ [] }, ok 1),
)
unfolding keys_run
late_prune = refl

change_of_secret :
    reencrypt opened (first_row ∷ []) 6
    ≡ (record first_row { private_key = (6, 77) } ∷ [], (record opened { enc_key = 6 }, ok tt))
unfolding keys_run
change_of_secret = refl

reencrypt-load_example :
    (◌≡◌ {A = ℕ} 6 6)
    × (first_key ∷ [] ≡ first_key ∷ [])
    × (load 6 (sort_rows (keep is_published (record first_row { private_key = (6, 77) } ∷ [])))
        ≡ some (first_key ∷ []))
reencrypt-load_example = reencrypt-load opened (first_row ∷ []) 6 first_key_read change_of_secret
