-- ===== src/Lib.antt =====
-- SemantScript's trainer: the part that turns a program's inputs into the bytes that the model
-- reads.
--
-- A `sema` expression is compiled to a schema of its inputs. The trainer checks each record of
-- inputs against that schema and writes it as canonical bytes, which the TypeScript runtime
-- repeats byte for byte. Two things matter of it: that different records have different bytes, and
-- that no record, however nested or cyclic, costs more than a fixed amount of work. The JSON that
-- teachers send is read with limits too, constraints on it are checked as JavaScript would, and what
-- teachers are paid for is kept in a journal, so that a rerun does not pay again.
--
-- Prelude/ holds library names passed on, Boolean tests, list functions on the native numbers, and an
--   insertion sort that stands for Python's stable `sort` and `sorted`.
-- Python/ is what the modules rely on of the language: texts as code points (Text), UTF-8 (Utf8
--   and Decode), digits (Digits), binary64 as 64 bits with the conversions of ints (Float), and objects
--   (Values). Containers stand on a heap, a function from addresses to objects, so that the
--   inputs may be shared or cyclic; `id` is the address. The code modelled changes none of them.
-- CanonicalInput/ is trainer/src/semantscript_trainer/canonical_input.py.
--   Errors and Exec hold `CanonicalInputError`, the other two kinds of exception, and actions on
--   an `_EncodeContext` that may raise. Tree is `ExactJson`. Spec, Keys and Schema read and check
--   the schema (`_validate_and_order_schema`, `_validate_input_type`, `_object_fields`). Numbers,
--   Leaves and Encode are `_encode_envelope`, `_encode_value` and what it calls. Escape, Writer
--   and Compact are `_ExactJsonWriter` with `_write_exact_json`, and `_write_compact`. Serialize
--   is `serialize_canonical_inputs`. Primitives, Conforms and Matches describe, without the encoder,
--   which values are of a type and which trees are theirs. The other files hold the proofs.
--
-- StrictJson/ is trainer/src/semantscript_trainer/strict_json.py, which reads what a teacher sends.
-- Document holds `StrictJsonLimits` and `_decode`, Depth `_check_lexical_depth`, Json the values and
-- the hooks of `json.loads`, Nodes `_check_value`, and Load `loads_strict_json`. The modules below
-- these hold the proofs. The parser of `json.loads`, from a text to its syntax, and `float` of a
-- number token are parameters, of which nothing is assumed.
--
-- SemanticJson/ is trainer/src/semantscript_trainer/semantic_json.py: Node is `_to_typed_node`, and
-- Write the string, the bytes and the digest, whose SHA-256 is a parameter. It shares the sort of
-- the pairs and the JSON text of a tree with CanonicalInput.
--
-- Constraints/ is trainer/src/semantscript_trainer/constraints.py. Expression is
-- `_validate_expression` and `predicate_depends_on_inputs`, on predicates that are raw data on the
-- heap. Types holds `StaticType`, its equality and `_merge_types`; Spec the types of inputs and
-- outputs; Infer `_infer_expression_types`. View reads the node of a predicate, Eval is the evaluator's monad,
-- with its budget and its errors, Reading and Operators are the reads of properties and indices and
-- the operators, and Evaluate is `_evaluate`. Compile is `compile_constraints`, and Compiled is
-- `CompiledConstraints`. Numbers has the numbers as JavaScript compares and prints them. Scan is
-- what reads strings by UTF-16 units as JavaScript does: `_EvaluationBudget`, `_iter_utf16_units`,
-- `_compare_utf16`, `_utf16_length` and `_utf16_unit_at`. A generator is its state, and its next
-- unit is taken where the code calls `next`. Types/Fits describes which
-- values are of a declared type, apart from the code's static types. Safety, Units and Utf16 hold
-- proofs, and so do the modules below the others. The case contract, the sum, product and remainder of doubles, and
-- `repr` are parameters.
--
-- The copy of a constraint that `compile_constraints` takes first is not told from it, since nothing
-- changes the data of the heap; that it may fail is left out.
--
-- TeacherSpend/ is trainer/src/semantscript_trainer/teacher_spend.py and `_send` of
-- teachers/anthropic.py beside it, through which a paid request goes. Document is what is read of a
-- response and what is stored of it, Journal `ResponseJournal`, Meter `TeacherPrice` and
-- `SpendMeter`, Price `resolve_price`, and Send `_send`; the modules below these hold the proofs. The
-- disk is a list of files, each with the document that is read from it. The digest of a request, the
-- client's answers, which files can be written and removed, what OpenRouter lists, and the
-- arithmetic of doubles are parameters.
--
-- Bounds. The depth is kept as the levels that are left: 101 for `MAXIMUM_INPUT_DEPTH` 100, and
-- none are left where the code finds the depth exceeded, so the recursion is structural and no
-- other fuel is used. The budget is kept as the work that is used, since the code's `remaining`
-- falls below 0 before it raises. The printing of a decimal and the slices of `write_text` run by
-- rounds that are computed from their length. The stack of `_check_value` runs by the nodes that are
-- left of its limit, since the code raises when there are none, and the scan of the depth keeps
-- the room that is left, which closing brackets may raise above the limit as they lower the depth
-- below 0. `_compare_utf16` runs for two rounds for each character of the left text and one more:
-- a character has two units at most. The validation of a predicate runs by the nodes that are left
-- of its limit, and the search for inputs by 100,000 rounds. The inference of types and the
-- evaluation run by levels of nesting, at most `MAXIMUM_CONSTRAINT_DEPTH`, which a validated
-- predicate does not exceed.
--
-- Not modelled: the messages of the errors and how a path is shown in them (`_quote_message`,
-- `_format_path`), `serialize_canonical_inputs_string`, which decodes the bytes again, and a
-- mapping or a sequence of a class of its own. `repr` of a float is a parameter of the v2 writer.
-- A dict's keys may be any value of the model. Of the meter, the printed line, the summary and the
-- statistics are left out, and so are the fetch of OpenRouter's list and the text of where a price is
-- from; an error's state is not kept there.
pub mod Prelude
pub mod Python
pub mod CanonicalInput
pub mod StrictJson
pub mod SemanticJson
pub mod Constraints
pub mod TeacherSpend
