-- ===== src/Examples/Legacy.antt =====
-- A boot of the legacy program, and a page that asks for its hashes.
use semantic_echo.Base.{◌<◌, ℕ, ◌+◌, ◌≡◌, refl, true, false, [], ◌∷◌, some, arith}
use mathlib.Core.List.{Memᴰ}
use semantic_echo.Base.Text.{Bytes, codes}
use semantic_echo.Hosts.{split_comma}
use semantic_echo.Certs.{ok, KeyPair, new_template, mint_leaf}
use semantic_echo.Legacy.{Flags, Started, serving, publish, legacy_main}
use semantic_echo.Legacy.HashFiles.{published}
use semantic_echo.Legacy.Publishing.{IsServed}
use semantic_echo.Legacy.Supervision.{
  errs_capacity, listening, stopped, sent, Process, start_tasks, stops, started, next, Steps,
  legacy_main_ends,
}
use semantic_echo.Legacy.Handout.{HandsOut, legacy_main-HandsOut}
use semantic_echo.Examples.Pages.{site, intruder}
use semantic_echo.Examples.Certs.{toy, draw, no_files}

abbrev pub flags : Flags
flags = record {
  port = 4433;
  pinned_port = 4437;
  cert_sign_port = 4439;
  probe_port = 4441;
  alt_port = 6443;
  hash_dir = codes "/tmp";
  sans = codes "a";
}

abbrev pub loaded : KeyPair toy
loaded = record { chain = (1 ∷ []) ∷ []; private_key = 0 }

abbrev pub leaf : ℕ → KeyPair toy
leaf n = record { chain = ((100 + n) ∷ n ∷ n ∷ []) ∷ []; private_key = n }

abbrev pub up : Started toy
up = record {
  listeners =
      serving toy 4433 loaded false
      ∷ serving toy 4437 (leaf 1) false
      ∷ serving toy 4439 (leaf 2) false
      ∷ serving toy 6443 (leaf 1) false
      ∷ serving toy 4441 loaded true
      ∷ [];
  files = published (codes "/tmp") no_files 4437 4439 6443 (101 ∷ 1 ∷ 1 ∷ []) (102 ∷ 2 ∷ 2 ∷ []);
}

pub boot_up :
    legacy_main toy flags (some loaded) no_files (draw 1) (draw 2) (true, true, true) ≡ ok up
unfolding legacy_main publish mint_leaf new_template
boot_up = refl

legacy_main-HandsOut_example :
    let echo = record site { read_file = up.files } in
    (pinned : KeyPair toy) × (cert_sign : KeyPair toy) × IsServed toy flags
      (some loaded)
      up
      pinned
      cert_sign
    × HandsOut toy echo intruder (split_comma (codes "a")) 4437 pinned
    × HandsOut toy echo intruder (split_comma (codes "a")) 4439 cert_sign
    × HandsOut toy echo intruder (split_comma (codes "a")) 6443 pinned
legacy_main-HandsOut_example =
    legacy_main-HandsOut toy flags (some loaded) no_files (draw 1) (draw 2) (true, true, true) up
      (record site { read_file = up.files }) intruder (omega arith) (omega arith)
      (λ e. omega (arith, e)) (λ e. omega (arith, e)) (omega arith) (omega arith) (omega arith) refl
      (λ path. refl) boot_up

-- The listener of the pinned port cannot bind.
abbrev taken : Bytes
taken = codes "address already in use"

abbrev one_down : Process
one_down = record (start_tasks up.listeners) {
  tasks = listening ∷ stopped taken ∷ listening ∷ listening ∷ listening ∷ [];
}

legacy_main_ends_example :
    (0 < errs_capacity)
    × ((t : Process) × (reported : Bytes) × Steps one_down t
        × (t.ended ≡ some reported)
        × Memᴰ (sent reported) t.tasks)
legacy_main_ends_example =
    legacy_main_ends toy flags (some loaded) no_files (draw 1) (draw 2) (true, true, true) up
      one_down (listening ∷ []) (listening ∷ listening ∷ listening ∷ []) taken boot_up
      (next {u = one_down} started
        (stops (listening ∷ []) (listening ∷ listening ∷ listening ∷ []) taken refl refl))
      refl refl
