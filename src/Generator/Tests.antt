-- ===== src/Generator/Tests.antt =====
-- The theorem on the generator at the default specification, with a source that always draws the
-- first and shuffles nothing.
use vpn_password_manager.Base.{◌<◌, ◌≤◌, Text, length, is_empty, true, ◌≡◌, refl, ◌⊎◌}
use vpn_password_manager.Error.{ok, err, invalid}
use vpn_password_manager.Generator.{Rng, default_spec, classes, password}
use vpn_password_manager.Generator.Classes.{Meets, password-Meets}

abbrev first_drawn : Rng
first_drawn = record {
  gen_range = λ draw bound. 0;
  shuffle = λ s. s;
  gen_range_lt = λ draw bound h. h;
  length_shuffle = λ s. refl;
  in_shuffle = λ c s. (λ i. i, λ i. i);
}

password-Meets_example :
    (((is_empty (classes default_spec) ≡ true) ⊎ (20 < length (classes default_spec)))
      × (password first_drawn default_spec ≡ err invalid))
    ⊎ ((length (classes default_spec) ≤ 20)
        × (pw : Text) × (password first_drawn default_spec ≡ ok pw)
        × Meets first_drawn default_spec pw)
password-Meets_example = password-Meets first_drawn default_spec
