-- ===== src/Tests/Documents.antt =====
-- The documents of a small scenario, and what the loader calls to read them.
use bzr_live.Common.{pos, String, [], ◌∷◌, some, ◌==ₛ◌, if◌then◌else◌, ok, err, invalid}
use bzr_live.Value.{Value, int, str, list, obj, nil, cons, Fields, end, field}
use bzr_live.Loader.Load.{Outside}

abbrev pub to_ref : String → Value
to_ref s = obj (field "ref" (str s) end)

abbrev pub product_doc : Value
product_doc = obj (
    field "kind" (str "product")
      (field "name" (str "core") (field "description" (str "The core") end)))

abbrev pub component_doc : Value
component_doc = obj (
    field "kind" (str "component") (
      field "name" (str "parser")
        (field "product" (to_ref "product:core") (field "description" (str "The parser") end))))

abbrev pub actor_doc : Value
actor_doc = obj (
    field "kind" (str "actor") (
      field "name" (str "alice")
        (field "email" (str "alice@example.test") (field "display_name" (str "Alice") end))))

abbrev pub resources_doc : Value
resources_doc = obj (
    field "format_version" (int (pos 1))
      (field "resources" (list (cons component_doc (cons product_doc (cons actor_doc nil)))) end))

abbrev pub zeros : String
zeros = "0000000000000000000000000000000000000000000000000000000000000000"

abbrev pub log_doc : Value
log_doc = obj (
    field "name" (str "log") (field "path" (str "assets/log.txt") (field "sha256" (str zeros) end)))

abbrev pub scenario_doc : Value
scenario_doc = obj (
    field "format_version" (int (pos 1))
      (field "name" (str "demo") (field "assets" (list (cons log_doc nil)) end)))

abbrev pub create_fields : Fields
create_fields = field "format_version" (int (pos 1)) (
    field "name" (str "report") (
      field "actor" (to_ref "actor:alice") (
        field "action" (str "bug.create") (
          field "payload"
            (obj (
              field "alias" (str "crash") (
                field "product" (to_ref "product:core") (
                  field "component" (to_ref "component:parser")
                    (field "summary" (str "It crashes") end)))))
            end))))

abbrev pub comment_fields : Fields
comment_fields = field "format_version" (int (pos 1)) (
    field "name" (str "note") (
      field "actor" (to_ref "actor:alice") (
        field "action" (str "bug.comment") (
          field "payload" (obj (field "bug" (to_ref "bug:crash") (field "body" (str "Seen") end)))
            end))))

-- a file is told by the number of its bytes, and a line of the events is one letter
abbrev pub outside : Outside
outside = record {
  read_regular = λ name.
      if name ==ₛ "scenario.json"
      then ok []
      else (if name ==ₛ "resources.json" then ok (0 ∷ []) else ok (0 ∷ 0 ∷ []));
  read_asset = λ path. ok (104 ∷ 105 ∷ []);
  decode = λ bytes. elim bytes [
    | [] ↦ some "scenario"
    | a ∷ [] ↦ some "resources"
    | a ∷ b ∷ rest ↦ some "c\n\nn\n"
  ];
  encode = λ text. [];
  loads = λ text.
      if text ==ₛ "scenario"
      then ok scenario_doc
      else (if text ==ₛ "resources"
          then ok resources_doc
          else (if text ==ₛ "c"
              then ok (obj create_fields)
              else (if text ==ₛ "n"
                  then ok (obj comment_fields)
                  else err (invalid "invalid JSON"))));
  dumps = λ v. "";
  sha256 = λ bytes. zeros;
}
