-- ===== src/Compiler/Semantics/Examples.antt =====
-- A function with jumps inside and outside a loop, walked and validated.
use stainless.Base.{◌+◌, ℕ, ◌≡◌, refl, ◌⊎◌, ◌↔◌, true, false, some, [], ◌∷◌}
use stainless.Compiler.Diagnostic.{Span, Diagnostic, semantic_error}
use stainless.Compiler.Syntax.Types.{SourceType, source_type, named, named_type, nil}
use stainless.Compiler.Syntax.Statements.{
  Parameter, Expression, expression, malformed_expression, absent, present, braced, no_statement,
  and_statement, Statement, statement, block, return, throw, try_statement, while_statement, break,
  continue, no_catch, and_catch, catch_all,
}
use stainless.Compiler.Syntax.Items.{function, no_item, and_item, SourceFile}
use stainless.Compiler.Semantics.{
  Message, break_outside_loop, continue_outside_loop, void_returns_value, duplicate_parameter,
  Validator, check_statement, push_if, check_function, check_parameters, check_parameters_from,
  check_block, check_return, check_throw,
}
use stainless.Compiler.Semantics.Validate.{validate, check_items}
use stainless.Compiler.Diagnostic.{sort_by_span, insert_by_span}
use stainless.Compiler.Diagnostic.Order.{IsInOrder, at_span}
use stainless.Compiler.Semantics.Rules.{Violates}
use stainless.Compiler.Semantics.Parts.{place}
use stainless.Compiler.Semantics.Complete.{check_statement_iff}
use stainless.Compiler.Semantics.Order.{validate-IsInOrder, reported}
use mathlib.Core.List.Memᴰ.{Memᴰ}

abbrev at : ℕ → Span
at n = record { start = n; end = n + 1 }

abbrev value : Expression
value = expression malformed_expression (at 3)

-- `{ while (value) { break; } continue; try {} catch (...) { throw; } }`
abbrev jumps : Statement
jumps =
    statement
      (block (
        braced
          (and_statement
            (statement
              (while_statement value (
                statement
                  (block (braced (and_statement (statement break (at 5)) no_statement) (at 4)))
                  (at 4)))
              (at 2))
            (and_statement (statement continue (at 7)) (
              and_statement
                (statement
                  (try_statement (braced no_statement (at 9)) (
                    and_catch
                      (catch_all
                        (braced (and_statement (statement (throw absent) (at 11)) no_statement)
                          (at 10))
                        (at 10))
                      no_catch))
                  (at 8))
                no_statement)))
          (at 1)))
      (at 1)

abbrev start : Validator
start = record { diagnostics = []; catch_depth = 0 }

abbrev stray : Diagnostic Message
stray = semantic_error "SEM008" continue_outside_loop (at 7)

walked : (check_statement jumps 0 true start).diagnostics ≡ stray ∷ []
unfolding check_block push_if check_throw
walked = refl

check_statement_iff_example :
    ((check_statement jumps 0 true start).catch_depth ≡ 0)
    × (Memᴰ stray (check_statement jumps 0 true start).diagnostics
        ↔ (Memᴰ stray [] ⊎ Violates (place 0 0 true) jumps stray))
check_statement_iff_example = check_statement_iff jumps 0 true start stray

abbrev void : SourceType
void = source_type false false (named (named_type (record { segments = "void" ∷ [] }) nil)) (at 0)

abbrev parameter : ℕ → Parameter
parameter n = record { ty = void; name = "x"; span = at n }

-- A function with its last parameter before its first one in the file, so that the order changes.
abbrev example_file : SourceFile
example_file = record {
  items =
      and_item
        (function (record {
          is_public = true;
          is_static = false;
          is_async = false;
          name = record { segments = "f" ∷ [] };
          owner_arguments = [];
          return_type = void;
          parameters = parameter 20 ∷ parameter 21 ∷ [];
          is_const = false;
          throws = [];
          body = some (
              braced
                (and_statement (statement break (at 12))
                  (and_statement (statement (return (present value)) (at 13)) no_statement))
                (at 11));
          span = at 10;
        }))
        no_item;
  span = at 0;
}

validated :
    validate example_file
    ≡ semantic_error "SEM007" break_outside_loop (at 12)
      ∷ semantic_error "SEM005" void_returns_value (at 13)
      ∷ semantic_error "SEM001" (duplicate_parameter "x") (at 21)
      ∷ []
unfolding validate check_items check_function check_parameters check_block push_if check_return
    sort_by_span check_parameters_from insert_by_span
validated = refl

validate-IsInOrder_example :
    IsInOrder (validate example_file)
    × ((place : Span)
        → at_span place (validate example_file) ≡ at_span place (reported example_file))
validate-IsInOrder_example = validate-IsInOrder example_file
