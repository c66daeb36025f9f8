-- ===== src/FileIo/Tests.antt =====
-- A file of three bytes, whose every call succeeds.
use linux_kernel_module_chea.Base.{
  ℕ, ◌+◌, ◌≡◌, refl, sym, true, false, some, List, [], ◌∷◌, take, drop, arith, length-take,
  take_whole, some_inj,
}
use linux_kernel_module_chea.FileIo.{Stdio, lkmc_file_read}
use linux_kernel_module_chea.FileIo.Contents.{OnFile, Outcome, lkmc_file_read-Outcome}

abbrev bytes : List ℕ
bytes = 1 ∷ 2 ∷ 3 ∷ []

-- A stream is its position.
abbrev plain : Stdio
plain = record {
  File = ℕ;
  ftell = λ p. (some p, p);
  fseek_end = λ p. (true, 3);
  fseek_set = λ n p. (true, n);
  fread = λ n p. (take n (drop p bytes), p + n);
  fclose = λ p. true;
}

abbrev plain_on_file : OnFile plain bytes
plain_on_file = record {
  position = λ p. p;
  tells = λ f p e. (sym (some_inj e), refl);
  to_end = λ f e. refl;
  to_place = λ n f e. refl;
  reads = λ n f.
      (n, sym (take_whole n (take n (drop f bytes)) (omega (arith, length-take n (drop f bytes)))));
}

lkmc_file_read-Outcome_example :
    Outcome plain bytes plain_on_file true (lkmc_file_read plain (some 0) true)
lkmc_file_read-Outcome_example = lkmc_file_read-Outcome plain bytes plain_on_file true 0 refl

reads_bytes :
    lkmc_file_read plain (some 0) true
    ≡ record { buffer = some bytes; left_open = false; leaked = false }
unfolding lkmc_file_read
reads_bytes = refl
