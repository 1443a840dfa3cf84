-- ===== src/Ast.antt =====
-- include/parser.hpp, namespace AST: the nodes of the tree that the parser builds. A class of nodes is
-- a constructor, and a `shared_ptr` to a node is the node, since no node is changed once it is made.
use gbas.Prelude.{ℕ, List, Option, none, some, Text}

pub data InstructionType : Type 0 where
  add adc inc sub sbc and xor or cp dec : InstructionType
  rlc rlca rl rla rrc rrca rr rra daa scf cpl ccf : InstructionType
  ld ldi ldd push pop : InstructionType
  jr ret reti jp call rst : InstructionType
  nop stop halt di ei : InstructionType
  sla sra swap srl bit res set : InstructionType
  invalid : InstructionType

pub data DirectiveType : Type 0 where
  section invalid : DirectiveType

pub data BinaryOpType : Type 0 where
  add sub mult div invalid : BinaryOpType

pub data UnaryOpType : Type 0 where
  neg invalid : UnaryOpType

pub data NodeType : Type 0 where
  root instruction register dregister label directive number binary_op unary_op invalid : NodeType

-- `Nodes` is the vector of children of a root. A register is the byte of its letter.
mutual
  pub data Node : Type 0 where
    root : Nodes → Node
    instruction0 : InstructionType → Node
    instruction1 : InstructionType → Node → Node
    instruction2 : InstructionType → Node → Node → Node
    register : ℕ → Node
    dregister : ℕ → ℕ → Node
    label : Text → Node
    directive : DirectiveType → List Text → Node
    number : ℕ → Node
    binary_op : BinaryOpType → Node → Node → Node
    unary_op : UnaryOpType → Node → Node

  pub data Nodes : Type 0 where
    nil : Nodes
    cons : Node → Nodes → Nodes

-- `BaseNode::id`.
unfoldable pub node_id : Node → NodeType
node_id (root _) = NodeType.root
node_id (instruction0 _) = NodeType.instruction
node_id (instruction1 _ _) = NodeType.instruction
node_id (instruction2 _ _ _) = NodeType.instruction
node_id (register _) = NodeType.register
node_id (dregister _ _) = NodeType.dregister
node_id (label _) = NodeType.label
node_id (directive _ _) = NodeType.directive
node_id (number _) = NodeType.number
node_id (binary_op _ _ _) = NodeType.binary_op
node_id (unary_op _ _) = NodeType.unary_op

-- `BaseInstruction::nOperands`, of the classes of instructions.
unfoldable pub n_operands : Node → Option ℕ
n_operands (instruction0 _) = some 0
n_operands (instruction1 _ _) = some 1
n_operands (instruction2 _ _ _) = some 2
n_operands _ = none

-- `BaseInstruction::type`.
unfoldable pub instruction_type : Node → Option InstructionType
instruction_type (instruction0 t) = some t
instruction_type (instruction1 t _) = some t
instruction_type (instruction2 t _ _) = some t
instruction_type _ = none

-- `Instruction1::operand`, and `Instruction2::left` and `Instruction2::right`.
unfoldable pub operands : Node → Nodes
operands (instruction1 _ operand) = cons operand nil
operands (instruction2 _ left right) = cons left (cons right nil)
operands _ = nil

-- `BinaryOp::opType`.
unfoldable pub binary_op_type : Node → Option BinaryOpType
binary_op_type (binary_op op _ _) = some op
binary_op_type _ = none

-- `BaseUnaryOp::opType` and `UnaryOp::opType`.
unfoldable pub unary_op_type : Node → Option UnaryOpType
unary_op_type (unary_op op _) = some op
unary_op_type _ = none
