-- ===== src/Tests/Ends.antt =====
-- The steps of the two requests of Tests/Updates.antt.
use go_oidc_middleware.Prelude.{◌*◌, ◌≤◌, refl, [], ◌∷◌, arith}
use go_oidc_middleware.Errors.{ok}
use go_oidc_middleware.KeyHandler.Updates.{
  move, acquire, refuse, wait, update, start, finish, stop, initial,
}
use go_oidc_middleware.KeyHandler.Updates.Ends.{Run, idle, more, steps}
use go_oidc_middleware.KeyHandler.Updates.Ends.Bounds.{steps-initial}
use go_oidc_middleware.Tests.Fixture.{fixture, new_key, old_keys}
use go_oidc_middleware.Tests.Updates.{
  taken, result, stranded, acquired_first, refused_second, first_updating, no_receiver,
}

stranded_run : Run fixture 2 (initial fixture old_keys) stranded
unfolding move
stranded_run =
    more
      (more
        (more
          (more
            (more
              (more (more idle (acquire 0 taken refl acquired_first) (omega arith))
                (refuse 1 refl refused_second) (omega arith))
              (update 0 (ok (new_key ∷ [])) first_updating) (omega arith))
            (start 0 result refl) (omega arith))
          (stop [] [] result refl no_receiver) tt)
        (finish 0 result refl) (omega arith))
      (wait 1 refl) (omega arith)

steps-initial_example : steps fixture stranded_run ≤ 5 * 2
steps-initial_example = steps-initial fixture 2 old_keys stranded stranded_run
