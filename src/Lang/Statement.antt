-- ===== src/Lang/Statement.antt =====
-- tlang/tinterpreter.h: the statements of the language and their results. A NULL block of an else
-- or a finally is an empty one. Left out are foreach, which calls methods, and import.
use c_algorithm.Base.{List, Option}
use c_algorithm.Lang.{Name, Expression, CrbValue}

pub data StatementResult : Type 0 where
  normal_statement_result : StatementResult
  return_statement_result : (return_value : CrbValue) → StatementResult
  break_statement_result : (label : Option Name) → StatementResult
  continue_statement_result : (label : Option Name) → StatementResult

mutual
  pub data Statement : Type 0 where
    expression_statement : Expression → Statement
    global_statement : (identifier_list : List Name) → Statement
    return_statement : (return_value : Option Expression) → Statement
    if_statement :
        (condition : Expression)
        → StatementList
        → ElifList
        → (else_block : StatementList) → Statement
    while_statement : (label : Option Name) → (condition : Expression) → StatementList → Statement
    for_statement :
        (label : Option Name)
        → (init condition post : Option Expression) → StatementList
        → Statement
    break_statement : (label : Option Name) → Statement
    continue_statement : (label : Option Name) → Statement
    try_statement : StatementList → Catch → (finally_block : StatementList) → Statement
    throw_statement : (exception : Expression) → Statement

  pub data StatementList : Type 0 where
    no_statements : StatementList
    statement_then : Statement → StatementList → StatementList

  pub data ElifList : Type 0 where
    no_elifs : ElifList
    elif_then : (condition : Expression) → StatementList → ElifList → ElifList

  pub data Catch : Type 0 where
    no_catch : Catch
    catch_block : (exception : Name) → StatementList → Catch
